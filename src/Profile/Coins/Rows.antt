-- ===== src/Profile/Coins/Rows.antt =====
-- How a created and a saved coin change what is found for every user and symbol.
use crypto_asset_tracker_mic.Base.{
  true, false, ◌&&◌, not, List, [], ◌∷◌, ◌++◌, map, Option, none, some, ◌≡◌, refl, ap, ◌∙◌, inl,
  inr, arith, if◌then◌else◌, Text, text_eq, ◌==◌, eq_iff, ok, Write, stored, write_failed, All,
  first, if_cases, Bool-cases, Option-cases, All-mono, All-first, first-map, first-passes,
  first-append_miss, first-append_none,
}
use mathlib.Core.Path.{subst₂}
use crypto_asset_tracker_mic.Profile.Models.{Decimal, Uuid, Coin, sentinel_eq}
use crypto_asset_tracker_mic.Profile.Coins.{
  CoinCreated, CoinSaved, kept, same_id, DistinctIds, of_user, coin_added, coin_saved,
}

module _ (D : Decimal) where
  -- The quantity that a change leads to.
  abbrev pub changed : D.Number → Option (Coin D) → D.Number
  changed change none = change
  changed change (some old) = D.add old.quantity change

module _ (D : Decimal) (column : D.Number → D.Number) where
  -- The row of the pair is now that of `c`, every other pair is as before, and the quantity is right.
  abbrev pub Effect :
      Uuid → Text → D.Number → List (Coin D) → List (Coin D) → Coin D → Uuid → Text → Type 0
  Effect user symbol change before after c u k =
      (first (of_user D u k) after ≡ (
        if user == u && symbol == k then some (kept D column c) else first (of_user D u k) before))
      × (c.quantity ≡ changed D change (first (of_user D user symbol) before))
      × (D.is_negative c.quantity ≡ false)

  pub coin_added-ok : (w : Write (Coin D)) (c : Coin D) → coin_added D w ≡ ok c → w ≡ stored c
  unfolding coin_added
  coin_added-ok (stored c') c e = ground arith
  coin_added-ok (write_failed text) c e = ground arith

  pub coin_saved-ok : (w : Write (Coin D)) (c : Coin D) → coin_saved D w ≡ ok c → w ≡ stored c
  unfolding coin_saved
  coin_saved-ok (stored c') c e = ground arith
  coin_saved-ok (write_failed text) c e = ground arith

  -- What holds of a pair holds of a pair that compares equal.
  at_same {ℓ} :
      (P : Uuid → Text → Type ℓ) (user u : Uuid) (symbol k : Text)
      → (user == u && symbol == k) ≡ true
      → P user symbol
      → P u k
  at_same P user u symbol k h p =
      subst₂ P (ground (arith, eq_iff user u)) (ground (arith, eq_iff symbol k)) p

  module _ (user : Uuid) (symbol : Text) (change : D.Number) where
    created-first :
        (c : Coin D) (before : List (Coin D)) (u : Uuid) (k : Text)
        → c.user_id ≡ user
        → c.symbol ≡ symbol
        → first (of_user D user symbol) before ≡ none
        → first (of_user D u k) (before ++ c ∷ [])
          ≡ (if user == u && symbol == k then some c else first (of_user D u k) before)
    created-first c before u k eu es missing = elim (Bool-cases (user == u && symbol == k)) [
      | inl same ↦ rw same (
          first-append_none (of_user D u k) before (c ∷ [])
            (at_same (λ v l. first (of_user D v l) before ≡ none) user u symbol k same missing)
          ∙ ground arith)
      | inr other ↦ rw other (first-append_miss (of_user D u k) before c (ground arith))
    ]

    pub created-Effect :
        (fresh c : Coin D) (before after : List (Coin D)) (u : Uuid) (k : Text)
        → fresh.user_id ≡ user
        → fresh.symbol ≡ symbol
        → fresh.quantity ≡ change
        → D.is_negative change ≡ false
        → first (of_user D user symbol) before ≡ none
        → CoinCreated D column fresh before after (stored c)
        → Effect user symbol change before after c u k
    created-Effect fresh c before after u k eu es eq pos missing law = (
      rw law.0 (created-first (kept D column c) before u k (law.1.2 ∙ eu) (law.1.0 ∙ es) missing),
      rw missing (law.1.1 ∙ eq),
      ground arith,
    )

    -- A row with the key of the coin that was found is that coin.
    same_row :
        (old : Coin D) (rows : List (Coin D))
        → DistinctIds D rows
        → first (of_user D user symbol) rows ≡ some old
        → All (λ x. same_id D x old ≡ true → x ≡ old) rows
    same_row old [] d e = tt
    same_row old (y ∷ ys) d e = elim (Bool-cases (of_user D user symbol y)) [
      | inl hit ↦
          let at : y ≡ old = ground arith in
          (
            (λ _. at),
            All-mono (λ x. not (same_id D x y) ≡ true) _ ys (λ x n h. absurd (ground arith)) d.0,
          )
      | inr miss ↦
          let rest : first (of_user D user symbol) ys ≡ some old = ground arith in
          let other = All-first (λ x. not (same_id D x y) ≡ true) _ ys old d.0 rest in
          ((λ h. absurd (ground arith)), same_row old ys d.1 rest)
    ]

    abbrev replace : Coin D → Coin D → Coin D
    replace c x = if same_id D x c then c else x

    replace-agrees :
        (old c x : Coin D) (u : Uuid) (k : Text)
        → c ≡ record old { quantity = c.quantity }
        → (same_id D x old ≡ true → x ≡ old)
        → of_user D u k (replace c x) ≡ of_user D u k x
    replace-agrees old c x u k shape at =
        if_cases (λ (y : Coin D). of_user D u k y ≡ of_user D u k x) (same_id D x c)
          (λ hit. let e : x ≡ old = at (ground arith) in ground arith) (λ _. refl)

    -- A row of another pair is not the one that is replaced.
    replace-other :
        (old c x : Coin D) (u : Uuid) (k : Text)
        → c ≡ record old { quantity = c.quantity }
        → (same_id D x old ≡ true → x ≡ old)
        → of_user D user symbol old ≡ true
        → of_user D u k x ≡ true
        → (user == u && symbol == k) ≡ false
        → replace c x ≡ x
    replace-other old c x u k shape at own there other =
        if_cases (λ (y : Coin D). y ≡ x) (same_id D x c)
          (λ hit.
            let e : x ≡ old = at (ground arith) in
            absurd (
              ground (
                arith,
                eq_iff old.user_id user,
                eq_iff old.symbol symbol,
                eq_iff old.user_id u,
                eq_iff old.symbol k,
                eq_iff user u,
                eq_iff symbol k,
              )))
          (λ _. refl)

    saved-first :
        (old c : Coin D) (before : List (Coin D)) (u : Uuid) (k : Text)
        → first (of_user D user symbol) before ≡ some old
        → DistinctIds D before
        → c ≡ record old { quantity = c.quantity }
        → first (of_user D u k) (map (replace c) before)
          ≡ (if user == u && symbol == k then some c else first (of_user D u k) before)
    saved-first old c before u k found d shape =
        first-map (of_user D u k) (replace c) before (
          All-mono _ _ before (λ x at. replace-agrees old c x u k shape at)
            (same_row old before d found))
        ∙ elim (Bool-cases (user == u && symbol == k)) [
          | inl same ↦ rw same (
              rw
                (at_same (λ v l. first (of_user D v l) before ≡ some old) user u symbol k same
                  found)
                (ap some (
                  if_cases (λ (y : Coin D). y ≡ c) (same_id D old c) (λ _. refl)
                    (λ miss. absurd (ground arith)))))
          | inr other ↦ rw other (elim (Option-cases (first (of_user D u k) before)) [
            | inl e ↦ rw e
            | inr (x, e) ↦ rw e (
                ap some (
                  replace-other old c x u k shape
                    (All-first (λ y. same_id D y old ≡ true → y ≡ old) _ before x
                      (same_row old before d found) e)
                    (first-passes (of_user D user symbol) before old found)
                    (first-passes (of_user D u k) before x e) other))
          ])
        ]

    pub saved-Effect :
        (old c : Coin D) (before after : List (Coin D)) (u : Uuid) (k : Text)
        → first (of_user D user symbol) before ≡ some old
        → DistinctIds D before
        → D.is_negative (D.add old.quantity change) ≡ false
        → CoinSaved D column
            (record old { quantity = D.add old.quantity change })
            before
            after
            (stored c)
        → Effect user symbol change before after c u k
    saved-Effect old c before after u k found d pos law = (
      rw (law.0, law.1)
          (saved-first old (kept D column (record old { quantity = D.add old.quantity change }))
            before u k found d refl),
      rw found (ap (λ (x : Coin D). x.quantity) law.1),
      rw law.1 pos,
    )
