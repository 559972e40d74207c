-- ===== src/Profile/Server/Refusals.antt =====
-- What a refused request does to the rows.
use crypto_asset_tracker_mic.Base.{
  is_empty, Bool, true, Option, none, some, ◌≡◌, refl, inl, inr, Text, if_cases, Result-cases,
}
use crypto_asset_tracker_mic.Profile.Models.{Decimal, Uuid, sentinel_eq}
use crypto_asset_tracker_mic.Profile.Coins.{CoinDb, CoinDbLaws, update_coin_quantity}
use crypto_asset_tracker_mic.Profile.Coins.Update.{update_coin_quantity_failed}
use crypto_asset_tracker_mic.Profile.Server.{
  Code, Reply, response, status, update_reply, update_parsed, update_of, update_coin_handler,
}

module _ (D : Decimal) (parse_uuid : Text → Option Uuid) (db : CoinDb D) (laws : CoinDbLaws D db)
    (s : db.State) (code : Code) (message : Text) where
  -- A status leaves the rows as they were.
  abbrev Refuses : Reply Bool × db.State → Type 0
  Refuses out = out.0 ≡ status code message → db.coins out.1 ≡ db.coins s

  updated-Refuses :
      (user : Uuid) (symbol : Text) (q : D.Number)
      → (let (r, s') = update_coin_quantity D db user symbol q s in
          update_reply D parse_uuid r ≡ status code message → db.coins s' ≡ db.coins s)
  unfolding update_reply
  updated-Refuses user symbol q h =
      elim (Result-cases (update_coin_quantity D db user symbol q s).0) [
        | inl (c, e) ↦
            (let bad : response true ≡ status code message = rw (e, update_reply) at h in cc)
        | inr (x, e) ↦ update_coin_quantity_failed D db laws user symbol q s x e
      ]

  parsed-Refuses :
      (details : Text) (user : Uuid) (symbol : Text) (q : Option D.Number)
      → Refuses (update_parsed D parse_uuid db details user symbol q s)
  unfolding update_parsed
  parsed-Refuses details user symbol none = λ _. refl
  parsed-Refuses details user symbol (some q) =
      if_cases {A = Reply Bool × db.State} Refuses (D.is_zero q) (λ _ _. refl)
        (λ _. updated-Refuses user symbol q)

  pub of-Refuses :
      (details : Text) (user : Option Uuid) (symbol quantity : Text)
      → Refuses (update_of D parse_uuid db details user symbol quantity s)
  unfolding update_of
  of-Refuses details none symbol quantity = λ _. refl
  of-Refuses details (some user) symbol quantity =
      if_cases {A = Reply Bool × db.State} Refuses (is_empty symbol) (λ _ _. refl)
        (λ _. parsed-Refuses details user symbol (D.of_text quantity))

-- A request to change a quantity that is answered with a status, for a malformed identifier, symbol
-- or quantity, for a zero, for missing funds or for a failure, leaves every row as it was.
pub update_coin_handler-Refuses :
    (D : Decimal) (parse_uuid : Text → Option Uuid) (db : CoinDb D)
    → CoinDbLaws D db
    → (s : db.State) (code : Code) (message details id symbol quantity : Text)
    → (update_coin_handler D parse_uuid db details id symbol quantity s).0 ≡ status code message
    → db.coins (update_coin_handler D parse_uuid db details id symbol quantity s).1 ≡ db.coins s
unfolding update_coin_handler
update_coin_handler-Refuses D parse_uuid db laws s code message details id symbol quantity =
    of-Refuses D parse_uuid db laws s code message details (parse_uuid id) symbol quantity
