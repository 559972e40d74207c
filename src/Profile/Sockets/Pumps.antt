-- ===== src/Profile/Sockets/Pumps.antt =====
-- What reaches the socket of a client, and who reaches the handlers.
use crypto_asset_tracker_mic.Base.{
  ℕ, Bool, true, false, List, [], ◌∷◌, ◌++◌, Option, some, ◌≡◌, ◌<◌, refl, ap, ◌∙◌, arith, Text,
  text_eq, nat_eq, length, All, insert, lookup, lookup-insert, ◌==◌, eq_refl, ◌||◌, ◌&&◌,
}
use crypto_asset_tracker_mic.Profile.Models.{Decimal, Uuid, User, PriceUpdate, PortfolioView}
use crypto_asset_tracker_mic.Profile.Manager.{
  Client, Manager, send_cap, deliver, offer, portfolio, registers, register_client,
}
use crypto_asset_tracker_mic.Profile.Manager.Watchers.{
  watches, lists, watches-register_client, subscribers_of-eq,
}
use crypto_asset_tracker_mic.Profile.Sockets.{
  Frame, text_frame, ping_frame, close_frame, WriterEvent, queued, queue_closed, ticker_fires,
  writer, new_client, upgrade, connected,
}

-- The messages that the writer takes from the queue, and those among its frames.
unfoldable pub taken : List (WriterEvent × Bool) → List Text
taken [] = []
taken ((queued m, ok) ∷ es) = m ∷ taken es
taken ((queue_closed, ok) ∷ es) = []
taken ((ticker_fires, ok) ∷ es) = taken es

unfoldable pub texts : List Frame → List Text
texts [] = []
texts (text_frame m ∷ fs) = m ∷ texts fs
texts (ping_frame ∷ fs) = texts fs
texts (close_frame ∷ fs) = texts fs

abbrev pub Written : List (WriterEvent × Bool) → Type 0
Written es = All (λ (e : WriterEvent × Bool). e.1 ≡ true) es

-- The writer writes the messages in the order of the queue and leaves none out: what is on the socket
-- is a beginning of what it took, and all of it if no write fails.
pub writer-Ordered :
    (es : List (WriterEvent × Bool))
    → ((rest : List Text) × (taken es ≡ texts (writer es) ++ rest))
      × (Written es → texts (writer es) ≡ taken es)
unfolding writer taken texts
writer-Ordered [] = (([], refl), λ h. refl)
writer-Ordered ((queued m, true) ∷ es) =
    let ((rest, e), all) = writer-Ordered es in
    ((rest, ap (λ ms. m ∷ ms) e), λ h. ap (λ ms. m ∷ ms) (all h.1))
writer-Ordered ((queued m, false) ∷ es) = ((m ∷ taken es, refl), λ h. cc)
writer-Ordered ((queue_closed, true) ∷ es) = (([], refl), λ h. refl)
writer-Ordered ((queue_closed, false) ∷ es) = (([], refl), λ h. refl)
writer-Ordered ((ticker_fires, true) ∷ es) =
    let ((rest, e), all) = writer-Ordered es in ((rest, e), λ h. all h.1)
writer-Ordered ((ticker_fires, false) ∷ es) = ((taken es, refl), λ h. cc)

deliver-send :
    (D : Decimal) (marshal : PortfolioView D → Option Text) (update : PriceUpdate D) (c : Client D)
    (bytes : Text)
    → length c.send < send_cap
    → marshal (portfolio D (record c { prices = insert update.symbol update.price c.prices }))
      ≡ some bytes
    → (deliver D marshal update c).send ≡ c.send ++ bytes ∷ []
unfolding deliver offer
deliver-send D marshal update c bytes room e = ground (arith, room, e)

-- When a price is delivered to a client whose queue has room, and the writer then takes the whole queue
-- and no write fails, the last message on the socket is the portfolio at the new price, after all that
-- waited before.
pub price_reaches_the_socket :
    (D : Decimal) (marshal : PortfolioView D → Option Text) (update : PriceUpdate D) (c : Client D)
    (bytes : Text) (es : List (WriterEvent × Bool))
    → length c.send < send_cap
    → marshal (portfolio D (record c { prices = insert update.symbol update.price c.prices }))
      ≡ some bytes
    → taken es ≡ (deliver D marshal update c).send
    → Written es
    → texts (writer es) ≡ c.send ++ bytes ∷ []
price_reaches_the_socket D marshal update c bytes es room e served written =
    (writer-Ordered es).1 written ∙ served ∙ deliver-send D marshal update c bytes room e

-- A connection that was upgraded, once the manager serves its registration, makes its user watch the
-- coins of the profile that was loaded, and changes nobody else's coins.
pub connected-Watches :
    (D : Decimal) (acknowledged : Text → Bool) (ref : ℕ) (user : Uuid) (profile : User D)
    (m : Manager D) (k : Text) (u : Uuid)
    → let made = upgrade D true acknowledged ref user (some profile) m in
      (made.0 ≡ connected ref)
      × (made.2 ≡ registers acknowledged ref ∷ [])
      × (watches D (register_client D acknowledged made.1 ref) k u
          ≡ ((lists D profile.coins k && user == u) || watches D m k u))
unfolding upgrade
connected-Watches D acknowledged ref user profile m k u =
    let c = new_client D user profile in
    let m' = record m { heap = insert ref c m.heap } in
    let found : lookup ref m'.heap ≡ some c =
      lookup-insert ref ref c m.heap ∙ rw (eq_refl ref) refl in
    (
      refl,
      refl,
      ground (
        arith,
        watches-register_client D acknowledged m' ref c k u found,
        subscribers_of-eq D m' m k refl,
      ),
    )
