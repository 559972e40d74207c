-- ===== src/Aggregator/StreamManager.antt =====
-- Aggregator/gateway/strman/stream_manager.go: who follows which symbol, and the stream goroutine of
-- each symbol. A call holds the mutex from start to end, so it is one step; so is the deferred
-- clean-up of a goroutine, which runs when its stream ends for whatever reason.
pub mod Invariant
pub mod Followers
pub mod Lost
pub mod Tests
use crypto_asset_tracker_mic.Base.{
  ℕ, suc, Bool, true, false, List, [], ◌∷◌, map, Option, none, some, ◌≡◌, not, if◌then◌else◌,
  nat_beq, Text, text_eq, to_lower, Dict, lookup, insert, delete, has, contains, add, remove, keep,
  first,
}

-- A goroutine that `start` launched: its cancel function is known by its number.
pub record Task : Type 0 where
  pub id : ℕ
  pub symbol : Text
  pub cancelled : Bool

pub record System : Type 0 where
  pub streams : Dict Text ℕ
  pub followers : Dict Text (List Text)
  pub tasks : List Task
  pub next_id : ℕ

abbrev pub new_stream_manager : System
new_stream_manager = record { streams = []; followers = []; tasks = []; next_id = 0 }

-- `sm.Followers[symbol]`: a missing key reads as the empty set.
unfoldable pub followers_of : System → Text → List Text
unfolding lookup
followers_of s symbol = elim (lookup symbol s.followers) [ none ↦ [] | some users ↦ users ]

unfoldable pub start : System → Text → System
unfolding insert
start s symbol = record s {
  streams = insert symbol s.next_id s.streams;
  tasks = record { id = s.next_id; symbol = symbol; cancelled = false } ∷ s.tasks;
  next_id = suc s.next_id;
}

unfoldable pub open_followers : System → Text → System
open_followers s symbol =
    if has symbol s.followers then s else record s { followers = insert symbol [] s.followers }

unfoldable pub subscribe : System → Text → Text → System
subscribe s symbol user = record s {
  followers = insert symbol (add user (followers_of s symbol)) s.followers;
}

unfoldable pub ensure_started : System → Text → System
ensure_started s symbol = if has symbol s.streams then s else start s symbol

-- `AddCoin` on the symbol in lower case.
unfoldable pub add_lower : System → Text → Text → System × Bool
add_lower s symbol user =
    let opened = open_followers s symbol in
    if contains user (followers_of opened symbol)
    then (opened, false)
    else (ensure_started (subscribe opened symbol user) symbol, true)

unfoldable pub add_coin : System → Text → Text → System × Bool
unfolding add_lower open_followers subscribe ensure_started
add_coin s symbol user = add_lower s (to_lower symbol) user

unfoldable pub mark : ℕ → Task → Task
mark id t = if nat_beq t.id id then record t { cancelled = true } else t

-- Calling the cancel function of a stream.
unfoldable pub cancel : System → ℕ → System
unfolding mark
cancel s id = record s { tasks = map (mark id) s.tasks }

unfoldable pub cancel_stream : System → Text → System
cancel_stream s symbol = elim (lookup symbol s.streams) [ none ↦ s | some id ↦ cancel s id ]

unfoldable pub unsubscribe : System → Text → Text → List Text → System
unsubscribe s symbol user users =
    if contains user users
    then record s { followers = insert symbol (remove user users) s.followers }
    else s

unfoldable pub cancel_if_unused : System → Text → List Text → System
cancel_if_unused s symbol [] = cancel_stream s symbol
cancel_if_unused s symbol (_ ∷ _) = s

unfoldable pub delete_lower : System → Text → Text → System
delete_lower s symbol user = elim (lookup symbol s.followers) [
  | none ↦ s
  | some users ↦
      let left = unsubscribe s symbol user users in
      cancel_if_unused left symbol (followers_of left symbol)
]

unfoldable pub delete_coin : System → Text → Text → System
unfolding delete_lower cancel_stream unsubscribe cancel_if_unused
delete_coin s symbol user = delete_lower s (to_lower symbol) user

-- The deferred function of `start`'s goroutine, with which the goroutine ends.
unfoldable pub finish : System → Task → System
finish s t = record s {
  streams = delete t.symbol s.streams;
  tasks = keep (λ u. not (nat_beq u.id t.id)) s.tasks;
}

-- The calls and the goroutines' ends interleave in any order.
pub data Step : System → System → Type 0 where
  adds : (s : System) (symbol user : Text) → Step s (add_coin s symbol user).0
  deletes : (s : System) (symbol user : Text) → Step s (delete_coin s symbol user)
  finishes :
      (s : System) (t : Task)
      → first (λ u. nat_beq u.id t.id) s.tasks ≡ some t
      → Step s (finish s t)

pub data Reach : System → Type 0 where
  created : Reach new_stream_manager
  later : {s t : System} → Reach s → Step s t → Reach t
