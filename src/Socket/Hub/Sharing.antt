-- ===== src/Socket/Hub/Sharing.antt =====
-- Which requests share a connection.
use crypto_asset_tracker_mic.Base.{
  ◌<◌, ◌++◌, none, some, ◌≡◌, refl, ap, ◌∙◌, arith, inl, inr, Text, text_eq, eq_iff, eq_refl, codes,
  lookup, lookup-insert, Option-cases,
}
use crypto_asset_tracker_mic.Socket.Hub.{
  Producer, ConnectionManager, create, get_or_create, get_or_create_connection,
}

-- Every registered channel was made, and different keys have different channels.
abbrev pub Separate : ConnectionManager → Type 0
Separate m =
    ((k : Text) (p : Producer) → lookup k m.connections ≡ some p → p.output_chan < m.next_chan)
    × ((j k : Text) (p q : Producer)
        → lookup j m.connections ≡ some p
        → lookup k m.connections ≡ some q
        → p.output_chan ≡ q.output_chan
        → j ≡ k)

create-Separate :
    (key url : Text) (m : ConnectionManager)
    → lookup key m.connections ≡ none
    → Separate m
    → Separate (create key url m).1
unfolding create
create-Separate key url m free (made, apart) =
    let new : Producer = record { output_chan = m.next_chan; url_connection = url } in
    (
      (λ k p at. ground (arith, lookup-insert key k new m.connections, made k p)),
      (λ j k p q at bt same. ground (
        arith,
        lookup-insert key j new m.connections,
        lookup-insert key k new m.connections,
        made j p,
        made k q,
        apart j k p q,
        eq_iff key j,
        eq_iff key k,
      )),
    )

pub get_or_create-Separate :
    (key url : Text) (m : ConnectionManager) → Separate m → Separate (get_or_create key url m).1
unfolding get_or_create
get_or_create-Separate key url m h = elim (Option-cases (lookup key m.connections)) [
  | inl e ↦ rw (e, get_or_create) (create-Separate key url m e h)
  | inr (p, e) ↦ rw (e, get_or_create) h
]

pub get_or_create-Registered :
    (key url : Text) (m : ConnectionManager)
    → (p : Producer) × (lookup key (get_or_create key url m).1.connections ≡ some p)
      × (p.output_chan ≡ (get_or_create key url m).0)
unfolding get_or_create create
get_or_create-Registered key url m = elim (Option-cases (lookup key m.connections)) [
  | inl e ↦
      (let new : Producer = record { output_chan = m.next_chan; url_connection = url } in
        rw (e, get_or_create)
          (new, lookup-insert key key new m.connections ∙ rw (eq_refl key) refl, refl))
  | inr (p, e) ↦ rw (e, get_or_create) (p, e, refl)
]

-- A registered producer stays registered.
pub get_or_create-keeps :
    (key url : Text) (m : ConnectionManager) (k : Text) (p : Producer)
    → lookup k m.connections ≡ some p
    → lookup k (get_or_create key url m).1.connections ≡ some p
unfolding get_or_create create
get_or_create-keeps key url m k p at = elim (Option-cases (lookup key m.connections)) [
  | inl e ↦
      (let new : Producer = record { output_chan = m.next_chan; url_connection = url } in
        rw (e, get_or_create)
          (ground (arith, at, e, lookup-insert key k new m.connections, eq_iff key k)))
  | inr (q, e) ↦ rw (e, get_or_create) at
]

again_same :
    (key url : Text) (m : ConnectionManager) (p : Producer)
    → lookup key m.connections ≡ some p
    → get_or_create key url m ≡ (p.output_chan, m)
unfolding get_or_create
again_same key url m p e = rw (e, get_or_create) refl

-- Two requests for a symbol in a row get the same channel, and the second starts nothing; the
-- separation of the channels of different symbols is kept.
pub get_or_create_connection-Shares :
    (base symbol : Text) (m : ConnectionManager)
    → Separate m
    → (get_or_create_connection base symbol (get_or_create_connection base symbol m).1
        ≡ get_or_create_connection base symbol m)
      × Separate (get_or_create_connection base symbol m).1
unfolding get_or_create_connection
get_or_create_connection-Shares base symbol m h =
    let url = base ++ symbol ++ codes "@aggTrade" in
    let (p, there, chan) = get_or_create-Registered symbol url m in
    (
      again_same symbol url (get_or_create symbol url m).1 p there
          ∙ ap (λ z. (z, (get_or_create symbol url m).1)) chan,
      get_or_create-Separate symbol url m h,
    )
