-- ===== src/Connection/Send/Window.antt =====
-- smbprotocol/connection.py, `_send`: the sequence window and the table of outstanding requests.
use smbprotocol.Prelude.{
  ℕ, ◌+◌, ◌≤◌, ◌<◌, ◌≡◌, refl, List, [], ◌∷◌, ◌++◌, Bool, true, false, Option, none, some, Error,
  Result, ok, err, key_error, smb_connection_closed, arith, ltb, ◌==◌, if◌then◌else◌, lookup, put,
  ◌⊎◌, inl, inr, Bool-cases, All,
}
use smbprotocol.Bytes.{Bytes}
use smbprotocol.Structure.Walk.{Structure}
use smbprotocol.Header.{smb2_cancel, smb2_negotiate, smb2_session_setup}
use smbprotocol.Transport.{frame}
use smbprotocol.Connection.{Connection, Message, Session, Tree, Request, Preauth, find_session}
use smbprotocol.Connection.Credits.{calculate_credit_charge, calculate_credit_charge_free}
use smbprotocol.Connection.Signature.{Crypto}
use smbprotocol.Connection.Encryption.{Aead}
use smbprotocol.Connection.Build.{SendArgs, or_else, next_and_padding}
use smbprotocol.Connection.Sound.{
  IsSound, Post, Any, next, ended, Post-state, Post-pure, remembered-IsSound,
}
use smbprotocol.Connection.Send
use smbprotocol.Connection.Send.{
  Call, ◌then_call◌, reserve, send_message, send_messages, send, sign_and_pack,
  check_worker_running,
}

-- The message is numbered by the window, or it is a cancel, which is no request of its own.
abbrev pub Numbered : SendArgs → Message → Type 0
Numbered args m = (args.message_id ≡ none) ⊎ ((m.command == smb2_cancel) ≡ true)

-- The id that `reserve` gives to a message that is no cancel is no longer in the window.
abbrev Reserved : Message → Connection → ℕ → Type 0
Reserved m c id = ((m.command == smb2_cancel) ≡ false) → id < c.sequence_low

-- The number by which the window moves.
abbrev step_of : ℕ → ℕ
step_of charge = if ltb 0 charge then charge else 1

step_of-pos : (charge : ℕ) → 1 ≤ step_of charge
step_of-pos charge = ground arith

step_of-charged : (charge : ℕ) → 1 ≤ charge → step_of charge ≡ charge
step_of-charged charge h = ground arith

or_else-none : (o : Option ℕ) (d : ℕ) → o ≡ none → or_else o d ≡ d
or_else-none o d e = rw e (unfold or_else in refl)

moved-IsSound :
    (c : Connection) (charge : ℕ)
    → IsSound c
    → c.sequence_low + charge ≤ c.sequence_high
    → (c.supports_multi_credit ≡ true → 1 ≤ charge)
    → IsSound (record c { sequence_low = c.sequence_low + step_of charge })
moved-IsSound c charge s fits charged = record {
  within = λ multi. omega (arith, step_of-charged charge (charged multi));
  below = λ i r e. omega (arith, s.below i r e);
}

reserve_charged-IsSound :
    (c : Connection) (charge : ℕ) (args : SendArgs) (m : Message)
    → IsSound c
    → Numbered args m
    → (c.supports_multi_credit ≡ true → (m.command == smb2_cancel) ≡ false → 1 ≤ charge)
    → Post IsSound (λ c' x. Reserved m c' x.1) (Send.reserve_charged c charge args.message_id m)
unfolding Send.reserve_charged
reserve_charged-IsSound c charge args m s n charged =
    elim (Bool-cases (ltb c.sequence_high (c.sequence_low + charge))) [
      | inl over ↦ rw over s
      | inr fits ↦ elim (Bool-cases (m.command == smb2_cancel)) [
        | inl cancel ↦ rw (fits, cancel) (s, λ e. cc)
        | inr other ↦
            rw (fits, other)
              (
                moved-IsSound c charge s (ground arith) (λ multi. charged multi other),
                λ _. omega (
                  arith,
                  or_else-none args.message_id c.sequence_low (numbered n other),
                  step_of-pos charge,
                ),
              )
      ]
    ]
  where
    numbered : Numbered args m → (m.command == smb2_cancel) ≡ false → args.message_id ≡ none
    numbered (inl e) other = e
    numbered (inr cancel) other = cc

not_zero-pos : (n : ℕ) → ((n ≡ 0) → ⊥) → 1 ≤ n
not_zero-pos n h = omega arith

reserve-IsSound :
    (c : Connection) (args : SendArgs) (m : Message)
    → IsSound c
    → Numbered args m
    → Post IsSound (λ c' x. Reserved m c' x.1) (reserve c args.message_id m)
unfolding reserve
reserve-IsSound c args m s n = go (calculate_credit_charge c.supports_multi_credit m) refl
  where
    go :
        (r : Result ℕ)
        → calculate_credit_charge c.supports_multi_credit m ≡ r
        → Post IsSound
            (λ c' x. Reserved m c' x.1)
            (elim r [
              | ok charge ↦ Send.reserve_charged c charge args.message_id m
              | err e ↦ (c, err e)
            ])
    go (err e) eq = s
    go (ok charge) eq = reserve_charged-IsSound c charge args m s n (λ multi other.
        not_zero-pos charge (λ z. refute multi other ((calculate_credit_charge_free _ m eq).0 z)))
      where
        refute :
            c.supports_multi_credit ≡ true
            → (m.command == smb2_cancel) ≡ false
            → (c.supports_multi_credit ≡ false) ⊎ ((m.command == smb2_cancel) ≡ true)
            → ⊥
        refute multi other (inl none_) = cc
        refute multi other (inr cancel) = cc

-- The window is where it was.
abbrev Stays : {A : Type 0} → Connection → Connection → A → Type 0
Stays c c' x = c'.sequence_low ≡ c.sequence_low

remember-IsSound :
    (c : Connection) (args : SendArgs) (m : Message) (current_id : ℕ) (header : Structure)
    → IsSound c
    → Reserved m c current_id
    → Post IsSound (Stays c) (Send.remember c args m current_id header)
unfolding Send.remember
remember-IsSound c args m current_id header s id = elim (Bool-cases (m.command == smb2_cancel)) [
  | inl cancel ↦ rw cancel (Post-pure IsSound (Stays c) c _ s (λ x. refl))
  | inr other ↦ rw other (remembered-IsSound c current_id _ s (id other), refl)
]

store_hash-IsSound :
    (c : Connection) (sid request : ℕ) (h : Result Preauth)
    → IsSound c
    → Post IsSound (Stays c) (Send.store_hash c sid request h)
unfolding Send.store_hash
store_hash-IsSound c sid request (ok h) s = (record { within = s.within; below = s.below }, refl)
store_hash-IsSound c sid request (err e) s = s

preauth_session-IsSound :
    (c : Connection) (session_id : Option ℕ) (request : ℕ) (b : Bytes)
    → IsSound c
    → Post IsSound (Stays c) (Send.preauth_session c session_id request b)
unfolding Send.preauth_session
preauth_session-IsSound c none request b s = s
preauth_session-IsSound c (some sid) request b s = store_hash-IsSound c sid request _ s

preauth-IsSound :
    (c : Connection) (args : SendArgs) (m : Message) (request : ℕ) (b : Bytes)
    → IsSound c
    → Post IsSound (Stays c) (Send.preauth c args m request b)
unfolding Send.preauth
preauth-IsSound c args m request b s = elim (Bool-cases (m.command == smb2_negotiate)) [
  | inl negotiate ↦ rw negotiate (record { within = s.within; below = s.below }, refl)
  | inr other ↦ elim (Bool-cases (m.command == smb2_session_setup)) [
    | inl setup ↦ rw (other, setup) (preauth_session-IsSound c args.session_id request b s)
    | inr neither ↦ rw (other, neither) (s, refl)
  ]
]

module _ (k : Crypto) (args : SendArgs) (session : Option Session) (is_dfs : Bool) where
  -- Sending a message keeps the invariant, and leaves no trace beyond the window if it fails.
  send_message-IsSound :
      (c : Connection) (follows last : Bool) (m : Message)
      → IsSound c
      → Numbered args m
      → Post IsSound Any (send_message k c args session is_dfs follows last m)
  unfolding send_message
  send_message-IsSound c follows last m s n =
      next (Any {A = ℕ × ℕ}) _ _ (Post-pure IsSound Any c (next_and_padding last m) s (λ x. tt))
        λ c₀ sizes s₀ _.
          next (λ (c₁ : Connection) (x : ℕ × ℕ). Reserved m c₁ x.1) _ _
            (reserve-IsSound c₀ args m s₀ n)
            λ c₁ reserved s₁ r₁.
              next (λ (c₂ : Connection) (x : Structure × Bytes). Reserved m c₂ reserved.1) _ _
                (Post-pure IsSound
                  (λ (c₂ : Connection) (x : Structure × Bytes). Reserved m c₂ reserved.1) c₁
                  (Send.make_packet k c₁ args session is_dfs follows sizes reserved m) s₁ (λ x. r₁))
                λ c₂ made s₂ r₂.
                  next (Stays {A = ℕ} c₂) _ _ (remember-IsSound c₂ args m reserved.1 made.0 s₂ r₂)
                    λ c₃ request s₃ _.
                      next (Stays {A = ℕ} c₃) _ _ (preauth-IsSound c₃ args m request made.1 s₃)
                        λ c₄ request' s₄ _. ended {A = ℕ × Bytes} c₄ (request', made.1) s₄

  send_messages-IsSound :
      (c : Connection) (follows : Bool) (ms : List Message)
      → IsSound c
      → All (Numbered args) ms
      → Post IsSound Any (send_messages k c args session is_dfs follows ms)
  unfolding send_messages
  send_messages-IsSound c follows [] s n = (s, tt)
  send_messages-IsSound c follows (m ∷ []) s (n, _) =
      next (Any {A = ℕ × Bytes}) _ _ (send_message-IsSound c follows true m s n)
        λ c' made s' _. (s', tt)
  send_messages-IsSound c follows (m ∷ m' ∷ ms) s (n, ns) =
      next (Any {A = ℕ × Bytes}) _ _ (send_message-IsSound c follows false m s n) λ c' made s' _.
        next (Any {A = Bytes × List ℕ}) _ _ (send_messages-IsSound c' true (m' ∷ ms) s' ns)
          λ c'' rest s'' _. (s'', tt)

relate_first-IsSound :
    (c : Connection) (related : Bool) (rs : List ℕ)
    → IsSound c
    → Post IsSound Any (Send.relate_first c related rs)
unfolding Send.relate_first
relate_first-IsSound c false rs s = (s, tt)
relate_first-IsSound c true [] s = s
relate_first-IsSound c true (r ∷ rs) s = go (lookup r c.outstanding_requests) refl
  where
    go :
        (o : Option Request)
        → lookup r c.outstanding_requests ≡ o
        → Post IsSound Any (elim o [
          | none ↦ (c, err key_error)
          | some q ↦ (
            record c {
              outstanding_requests = put r (record q { related_ids = rs }) c.outstanding_requests;
            },
            ok (r ∷ rs),
          )
        ])
    go none e = s
    go (some q) e = (remembered-IsSound c r _ s (s.below r q e), tt)

pub check_worker_running-IsSound :
    (c : Connection) → IsSound c → Post IsSound (Any {A = Unit {0}}) (check_worker_running c)
unfolding check_worker_running
check_worker_running-IsSound c s = go c.worker_exception
  where
    go :
        (o : Option Error)
        → Post IsSound (Any {A = Unit {0}}) (elim o [
          | some e ↦ (record c { transport_connected = false }, err e)
          | none ↦ if c.transport_connected then (c, ok tt) else (c, err smb_connection_closed)
        ])
    go (some e) = record { within = s.within; below = s.below }
    go none = elim (Bool-cases c.transport_connected) [
      | inl up ↦ simp up (s, tt)
      | inr down ↦ simp down s
    ]

-- From a connection whose outstanding message ids are below the window and whose window, with credits,
-- is not overdrawn, a call of `_send` leads to such a connection however it ends, also by an exception
-- half way through a compound. The messages are numbered by the window, or are cancels.
pub send-IsSound :
    (k : Crypto) (a : Aead) (c : Connection) (nonce : Bytes) (args : SendArgs) (ms : List Message)
    → IsSound c
    → All (Numbered args) ms
    → IsSound (send k a c nonce args ms).0
unfolding send
send-IsSound k a c nonce args ms s n =
    let session = find_session c args.session_id in
    Post-state _ (
      next (Any {A = Option Tree}) _ _
        (Post-pure IsSound Any c (Send.find_tree session args.tree_id) s (λ x. tt))
        λ c₁ tree s₁ _.
          next (Any {A = Bytes × List ℕ}) _ _
            (send_messages-IsSound k args session (Send.is_dfs_of tree) c₁ false ms s₁ n)
            λ c₂ made s₂ _.
              next (Any {A = List ℕ}) _ _ (relate_first-IsSound c₂ args.related made.1 s₂)
                λ c₃ requests s₃ _.
                  next (Any {A = Bytes}) _ _
                    (Post-pure IsSound Any c₃ (Send.encrypt_if k a c₃ nonce session tree made.0) s₃
                      (λ x. tt))
                    λ c₄ send_data s₄ _.
                      next (Any {A = Unit {0}}) _ _ (check_worker_running-IsSound c₄ s₄)
                        λ c₅ _ s₅ _.
                          next (Any {A = Bytes}) _ _
                            (Post-pure IsSound Any c₅ (frame send_data) s₅ (λ x. tt))
                            λ c₆ b s₆ _.
                              ended (record c₆ { sent = c₆.sent ++ (b ∷ []) }) requests
                                (record { within = s₆.within; below = s₆.below }))
