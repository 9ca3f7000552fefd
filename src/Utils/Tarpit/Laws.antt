-- ===== src/Utils/Tarpit/Laws.antt =====
-- The tar pit of targetd/utils.py holds a client only while a thread is inside its pit.
use targetd.Prelude.{
  ◌≡◌, true, false, arith, ◌||◌, Text, text_eq, text_eq_iff, text_eq_refl, ap, member, List, [],
  ◌∷◌,
}
use targetd.Prelude.Dict.{
  NodupKeys, lookup, lookup-insert, lookup-erase, insert-NodupKeys, erase-NodupKeys,
}
use targetd.Utils.Errors.{err, key_error}
use targetd.Utils.Tarpit.{
  Clients, is_stuck, enter, exit, Pits, without, Step, asks, enters, leaves, Reach, start, next,
}

member-without :
    (k c : Text) (ds : List Text)
    → text_eq c k ≡ false
    → member k ds ≡ true
    → member k (without c ds) ≡ true
unfolding without
member-without k c [] n h = h
member-without k c (d ∷ ds) n h = ground (
  arith,
  text_eq_iff d c,
  text_eq_iff d k,
  text_eq_iff c k,
  text_eq_iff k d,
  text_eq_iff k c,
  member-without k c ds,
)

-- A client in the dict has a thread inside its pit, and no client is listed twice.
abbrev pub IsHeld : Pits → Type 0
IsHeld s = NodupKeys s.client × ((k : Text) → is_stuck k s.client ≡ true → member k s.inside ≡ true)

pub enter-NodupKeys : (c : Text) (d : Clients) → NodupKeys d → NodupKeys (enter c d).1
unfolding enter
enter-NodupKeys c d h = insert-NodupKeys c true d h

exit-NodupKeys : (c : Text) (d : Clients) → NodupKeys d → NodupKeys (exit c d).1
unfolding exit
exit-NodupKeys c d h = ground (arith, erase-NodupKeys c d h)

stuck-enter : (k c : Text) (d : Clients) → is_stuck k (enter c d).1 ≡ (text_eq c k || is_stuck k d)
unfolding is_stuck enter
stuck-enter k c d = ground (arith, lookup-insert c k true d)

stuck-exit :
    (k c : Text) (d : Clients)
    → NodupKeys d
    → is_stuck k (exit c d).1 ≡ true
    → (text_eq c k ≡ false) × (is_stuck k d ≡ true)
unfolding is_stuck exit
stuck-exit k c d n h = ground (arith, lookup-erase c k d n, text_eq_iff c k)

Step-IsHeld : {s t : Pits} → Step s t → IsHeld s → IsHeld t
Step-IsHeld (asks s c h) inv = inv
Step-IsHeld (enters s c h) inv = (
  enter-NodupKeys c s.client inv.0,
  λ k stuck. ground (arith, stuck-enter k c s.client, inv.1 k, text_eq_iff c k, text_eq_iff k c),
)
Step-IsHeld (leaves s c h) inv = (
  exit-NodupKeys c s.client inv.0,
  λ k stuck.
      let was = stuck-exit k c s.client inv.0 stuck in
      member-without k c s.inside was.0 (inv.1 k was.1),
)

nobody : (k : Text) → is_stuck k [] ≡ true → member k [] ≡ true
unfolding is_stuck lookup
nobody k h = ground arith

Reach-IsHeld : {s : Pits} → Reach s → IsHeld s
Reach-IsHeld start = (tt, λ k. nobody k)
Reach-IsHeld (next r st) = Step-IsHeld st (Reach-IsHeld r)

-- In every interleaving of the threads, a client that the tar pit holds has a thread inside its
-- pit: once the failed log-ins of a client are all answered, it is not refused any more.
pub not_stuck_outside :
    {s : Pits} (r : Reach s) (c : Text) → member c s.inside ≡ false → is_stuck c s.client ≡ false
not_stuck_outside r c h = ground (arith, (Reach-IsHeld r).1 c)

exit_absent : (c : Text) (d : Clients) → is_stuck c d ≡ false → exit c d ≡ (err key_error, d)
unfolding is_stuck exit
exit_absent c d h = ground arith

pub left_once : (c : Text) (d : Clients) → NodupKeys d → is_stuck c (exit c d).1 ≡ false
left_once c d n = ground (arith, stuck-exit c c d n, text_eq_refl c)

-- When two threads of one client are inside the pit at once, the one that leaves last raises
-- `KeyError`, whatever the dict was before.
pub second_exit_raises :
    (c : Text) (d : Clients)
    → NodupKeys d
    → (exit c (exit c (enter c (enter c d).1).1).1).0 ≡ err key_error
second_exit_raises c d h =
    ap (λ r. r.0) (exit_absent c _ (left_once c (enter c (enter c d).1).1 twice))
  where
    twice : NodupKeys (enter c (enter c d).1).1
    twice = enter-NodupKeys c _ (enter-NodupKeys c d h)
