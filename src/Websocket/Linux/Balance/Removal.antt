-- ===== src/Websocket/Linux/Balance/Removal.antt =====
-- linux_websocket.c: what is left in the lists of the loop when a stream takes its part out.
use artik_sdk.Prelude.{
  ℕ, zero, suc, ◌+◌, ◌-◌, ◌≤◌, ◌≡◌, ◌≢◌, refl, inl, inr, Bool-cases, ==_iff, List, ◌==◌,
  if◌then◌else◌, arith,
}
use artik_sdk.Prelude.Int.{ℤ, pos, negsuc}
use artik_sdk.Prelude.Counting.{count, remove_one, count-remove_one}
use artik_sdk.Websocket.Linux.{Data, World, removed, minus_one}
use artik_sdk.Websocket.Linux.Balance.{watched, timed, IsUnset, Fds, Watches}

-- How often `x` is the identifier `y`.
abbrev hit : ℕ → ℕ → ℕ
hit x y = if x == y then 1 else 0

watched-le : (x : ℕ) (d : Data) → watched x d ≤ hit x d.watch_id
watched-le x d = ground arith

watched-hit : (x : ℕ) (d : Data) → IsUnset d → x ≢ 0 → watched x d ≡ hit x d.watch_id
watched-hit x d u z = elim (Bool-cases (d.callback == 0)) [
  | inl e ↦ ground (arith, u ((==_iff d.callback 0).0 e))
  | inr e ↦ rw e refl
]

abbrev pub remove_all : Fds → List ℕ → List ℕ
remove_all d l = remove_one d.connection_error.watch_id (
    remove_one d.error.watch_id (
      remove_one d.receive.watch_id
        (remove_one d.connect.watch_id (remove_one d.close.watch_id l))))

count-remove_all :
    (x : ℕ) (d : Fds) (l : List ℕ)
    → count x (remove_all d l)
      ≡ count x l
        - (hit x d.close.watch_id
            + hit x d.connect.watch_id
            + hit x d.receive.watch_id
            + hit x d.error.watch_id
            + hit x d.connection_error.watch_id)
count-remove_all x d l =
    let l1 = remove_one d.close.watch_id l in
    let l2 = remove_one d.connect.watch_id l1 in
    let l3 = remove_one d.receive.watch_id l2 in
    let l4 = remove_one d.error.watch_id l3 in
    omega (
      arith,
      count-remove_one x d.close.watch_id l,
      count-remove_one x d.connect.watch_id l1,
      count-remove_one x d.receive.watch_id l2,
      count-remove_one x d.error.watch_id l3,
      count-remove_one x d.connection_error.watch_id l4,
    )

module _ {base : World} (zero_free : count 0 base.watches ≡ 0) where
  pub remove_all-Watches :
      (l : List ℕ) (d : Fds)
      → Watches base l d
      → (x : ℕ) → count x (remove_all d l) ≡ count x base.watches
  remove_all-Watches l d h zero = omega (
    arith,
    zero_free,
    h.watches 0,
    count-remove_all 0 d l,
    watched-le 0 d.close,
    watched-le 0 d.connect,
    watched-le 0 d.receive,
    watched-le 0 d.error,
    watched-le 0 d.connection_error,
  )
  remove_all-Watches l d h (suc y) = omega (
    arith,
    h.watches (suc y),
    count-remove_all (suc y) d l,
    watched-hit (suc y) d.close h.unset_close (omega arith),
    watched-hit (suc y) d.connect h.unset_connect (omega arith),
    watched-hit (suc y) d.receive h.unset_receive (omega arith),
    watched-hit (suc y) d.error h.unset_error (omega arith),
    watched-hit (suc y) d.connection_error h.unset_connection_error (omega arith),
  )

-- A timer that is removed where its period `p` is set.
pub count-removed :
    (p x : ℕ) (t : ℤ) (l m : List ℕ)
    → (p ≡ 0 → t ≡ minus_one)
    → count x l ≡ count x m + timed x t
    → count x (if p == 0 then l else removed t l) ≡ count x m
count-removed p x (pos n) l m z e = ground (arith, z, e, count-remove_one x n l)
count-removed p x (negsuc n) l m z e = ground (arith, e)
