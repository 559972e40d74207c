-- ===== src/Profile/Server/Tests.antt =====
-- Runs of the gRPC handlers on the table in memory, and of the repository of the profiles.
use crypto_asset_tracker_mic.Base.{
  true, [], ◌∷◌, some, ◌≡◌, refl, codes, err, sentinel, write_failed, is_substring, starts_with,
  errors_is,
}
use crypto_asset_tracker_mic.Profile.Models.{internal}
use crypto_asset_tracker_mic.Profile.Whole.{whole}
use crypto_asset_tracker_mic.Profile.Users.{user_created}
use crypto_asset_tracker_mic.Profile.Coins.{
  delete_coin, coin_deleted, update_coin_quantity, upsert, upsert_existing, upsert_missing,
  get_coin, add_coin, update_coin, coin_added, coin_read, coin_saved, is_exactly, upsert_reply,
}
use crypto_asset_tracker_mic.Profile.Coins.Tests.{memory, portfolio}
use crypto_asset_tracker_mic.Profile.Server.{
  response, update_coin_handler, update_of, update_parsed, update_reply, delete_coin_handler,
  delete_of, delete_reply,
}

everything : Unit {0}
unfolding user_created is_substring starts_with errors_is update_coin_handler update_of
    update_parsed update_reply delete_coin_handler delete_of delete_reply delete_coin coin_deleted
    update_coin_quantity upsert upsert_existing upsert_missing get_coin add_coin update_coin
    coin_added coin_read coin_saved is_exactly upsert_reply
everything = tt

deposit_accepted :
    (update_coin_handler whole
      (λ t. some t)
      memory
      []
      (codes "ann")
      (codes "btc")
      (3 ∷ [])
      portfolio).0
    ≡ response true
unfolding everything
deposit_accepted = refl

coin_deleted_reply :
    (delete_coin_handler whole (λ t. some t) memory (codes "ann") (codes "btc") portfolio).0
    ≡ response true
unfolding everything
coin_deleted_reply = refl

-- PostgreSQL's message for a duplicate key is not the text that the repository looks for.
duplicate_key_missed :
    user_created whole (write_failed (codes "duplicate key value violates unique constraint"))
    ≡ err (sentinel internal)
unfolding everything
duplicate_key_missed = refl
