-- ===== src/Socket/Tests.antt =====
-- Runs of the connections, with numbers for connections.
use crypto_asset_tracker_mic.Base.{
  ℕ, zero, suc, ◌-◌, [], ◌∷◌, none, some, ◌≡◌, refl, Text, text_eq, codes, lookup, insert,
  starts_with, is_substring,
}
use crypto_asset_tracker_mic.Socket.Connection.{
  Dialed, dialed, refused, replace_first, fallback_url, fallback_for_451, second_dial, try_fallback,
  after_first, connect, Round, tries, backoff_time, after_attempt, run_round, reconnect_from,
  reconnect, reads_from, after_reconnect, after_connect, start, read_message, read_loop,
}
use crypto_asset_tracker_mic.Socket.Hub.{
  new_connection_manager, create, get_or_create, get_or_create_connection,
}
use crypto_asset_tracker_mic.Socket.Hub.Sharing.{Separate}

unfoldable pub everything : Unit {0}
unfolding replace_first fallback_url fallback_for_451 second_dial try_fallback after_first connect
    backoff_time after_attempt run_round reconnect_from reconnect after_reconnect after_connect
    start read_message read_loop create get_or_create get_or_create_connection lookup insert
    starts_with is_substring
everything = tt

abbrev pub exchange : Text
exchange = codes "wss://stream.binance.com:9443/ws"

moved : fallback_for_451 exchange (some 451) ≡ some (codes "wss://stream.binance.us:9443/ws")
unfolding everything
moved = refl

stays : fallback_for_451 exchange (some 403) ≡ none
unfolding everything
stays = refl

-- The exchange refuses the first dial and accepts afterwards.
abbrev pub refuses : ℕ → Text → Dialed ℕ
refuses i url = refused (codes "timeout") none

abbrev pub rounds : ℕ → Round ℕ
rounds zero = tries refuses
rounds (suc i) = tries (λ k url. dialed i)

abbrev pub half : ℕ → ℕ → ℕ
half n i = n - 1

reconnected : (reconnect ℕ half rounds exchange).waits ≡ 99 ∷ []
unfolding everything
reconnected = refl

nothing_read : start ℕ refuses half rounds exchange ≡ reads_from none exchange
unfolding everything
nothing_read = refl

no_connections-Separate : Separate new_connection_manager
unfolding everything
no_connections-Separate = ((λ k p e. cc e), (λ j k p q e f same. cc e))
