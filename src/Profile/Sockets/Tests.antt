-- ===== src/Profile/Sockets/Tests.antt =====
-- A client that connects, and its writer.
use crypto_asset_tracker_mic.Base.{
  true, List, [], ◌∷◌, ◌++◌, none, ◌≡◌, refl, arith, Text, text_eq, nat_eq, codes, Bool, Option,
  split_at,
}
use crypto_asset_tracker_mic.Base.Int.{pos}
use crypto_asset_tracker_mic.Profile.Whole.{whole}
use crypto_asset_tracker_mic.Profile.Manager.Tests.{everything, btc, ann, connection, print}
use crypto_asset_tracker_mic.Profile.Middleware.{
  SigningMethod, ParsedToken, parse_failed, auth_middleware, check_parts, claimed,
}
use crypto_asset_tracker_mic.Profile.Sockets.{
  get, post, in_api, dispatch, through, unauthorized, handled, login, text_frame, ping_frame,
  close_frame, WriterEvent, queued, queue_closed, ticker_fires, writer,
}
use crypto_asset_tracker_mic.Profile.Sockets.Pumps.{taken, texts, price_reaches_the_socket}

routes : Unit {0}
unfolding dispatch through auth_middleware check_parts claimed split_at writer taken texts
routes = tt

abbrev rejects : Text → (SigningMethod → Option Text) → ParsedToken
rejects token key = parse_failed

open_login :
    dispatch rejects (codes "s") post (in_api (codes "/auth/login")) [] ≡ handled login none
unfolding routes
open_login = refl

closed_profile :
    dispatch rejects (codes "s") get (in_api (codes "/profile")) (codes "Bearer x")
    ≡ unauthorized (codes "invalid token")
unfolding routes
closed_profile = refl

abbrev served : List (WriterEvent × Bool)
served = (queued (codes "a"), true) ∷ (ticker_fires, true) ∷ (queue_closed, true) ∷ []

frames : writer served ≡ text_frame (codes "a") ∷ ping_frame ∷ close_frame ∷ []
unfolding routes
frames = refl

price_reaches_the_socket_example :
    texts (writer ((queued (15 ∷ []), true) ∷ [])) ≡ (connection ann).send ++ (15 ∷ []) ∷ []
unfolding everything routes
price_reaches_the_socket_example =
    price_reaches_the_socket whole print (record { symbol = btc; price = pos 5 }) (connection ann)
      (15 ∷ []) ((queued (15 ∷ []), true) ∷ []) (omega arith) refl refl (refl, tt)
