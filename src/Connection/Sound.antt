-- ===== src/Connection/Sound.antt =====
-- smbprotocol/connection.py: what the calls on the connection keep, and how to reason about a call that
-- may raise an exception half way.
use smbprotocol.Prelude.{
  ℕ, ◌≤◌, ◌<◌, ◌≡◌, true, some, Result, ok, err, arith, ◌==◌, if◌then◌else◌, lookup, put,
  lookup-put, inl, inr, Bool-cases, ==_iff,
}
use smbprotocol.Connection.{Connection, Request}
use smbprotocol.Connection.Send.{Call, ◌then_call◌}

-- Every outstanding request has a message id below the window, and on a connection with credits the
-- window is not overdrawn.
pub record IsSound (c : Connection) : Type 0 where
  pub within : c.supports_multi_credit ≡ true → c.sequence_low ≤ c.sequence_high
  pub below : (i : ℕ) (r : Request) → lookup i c.outstanding_requests ≡ some r → i < c.sequence_low

-- `P` holds of the state after the call, and `Q` of the state and the result if there is one.
abbrev pub Post : {A : Type 0} → (Connection → Type 0) → (Connection → A → Type 0) → Call A → Type 0
Post P Q (c, ok x) = P c × Q c x
Post P Q (c, err e) = P c

module _ {A B : Type 0} (P : Connection → Type 0) (Q : Connection → A → Type 0)
    (R : Connection → B → Type 0) where
  pub Post-then_call :
      (m : Call A) (f : Connection → A → Call B)
      → Post P Q m
      → ((c : Connection) (x : A) → P c → Q c x → Post P R (f c x))
      → Post P R (m then_call f)
  Post-then_call (c, ok x) f (p, q) h = h c x p q
  Post-then_call (c, err e) f p h = p

abbrev pub Any : {A : Type 0} → Connection → A → Type 0
Any c x = Unit {0}

pub next :
    {A B : Type 0} (Q : Connection → A → Type 0) (m : Call A) (f : Connection → A → Call B)
    → Post IsSound Q m
    → ((c : Connection) (x : A) → IsSound c → Q c x → Post IsSound Any (f c x))
    → Post IsSound Any (m then_call f)
next Q m f p h = Post-then_call IsSound Q Any m f p h

pub ended : {A : Type 0} (c : Connection) (x : A) → IsSound c → Post IsSound (Any {A = A}) (c, ok x)
ended c x s = (s, tt)

pub Post-state : {A : Type 0} (m : Call A) → Post IsSound Any m → IsSound m.0
Post-state (c, ok x) (s, _) = s
Post-state (c, err e) s = s

-- A computation that leaves the state alone.
pub Post-pure :
    {A : Type 0} (P : Connection → Type 0) (Q : Connection → A → Type 0) (c : Connection)
    (r : Result A)
    → P c
    → ((x : A) → Q c x)
    → Post P Q (c, r)
Post-pure P Q c (ok x) p q = (p, q x)
Post-pure P Q c (err e) p q = p

pub remembered-IsSound :
    (c : Connection) (id : ℕ) (q : Request)
    → IsSound c
    → id < c.sequence_low
    → IsSound (record c { outstanding_requests = put id q c.outstanding_requests })
remembered-IsSound c id q s h = record {
  within = s.within;
  below = λ i r e. elim (Bool-cases (id == i)) [
    | inl same ↦ omega (arith, (==_iff id i).0 same)
    | inr other ↦
        let kept : (if id == i then some q else lookup i c.outstanding_requests) ≡ some r =
          rw (lookup-put id i q c.outstanding_requests) at e in
        s.below i r (rw other at kept)
  ];
}

pub Post-of_state : {A : Type 0} (m : Call A) → IsSound m.0 → Post IsSound Any m
Post-of_state (c, ok x) s = (s, tt)
Post-of_state (c, err e) s = s
