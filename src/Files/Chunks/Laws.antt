-- ===== src/Files/Chunks/Laws.antt =====
-- smbclient/_io.py, `_chunk_size`: what its result promises to the read or write that is sent with it.
use smbprotocol.Prelude.{
  ℕ, ◌+◌, ◌-◌, ◌*◌, ◌≤◌, ◌<◌, ◌≡◌, refl, sym, ap, ◌∙◌, subst, Bool, true, false, Option, none, some,
  ok, arith, min, max, if◌then◌else◌, ltb, Bool-cases, inl, inr, length, take, length-take,
  >>=-eq-ok, Result,
}
use smbprotocol.Bytes.{Bytes}
use smbprotocol.Connection.{Connection, Message}
use smbprotocol.Connection.Credits.{max_payload_size, calculate_credit_charge}
use smbprotocol.Connection.Send.{reserve}
use smbprotocol.Connection.Send.Fits.{reserve-fits}
use smbprotocol.Messages.Reading.{read, read-command, calculate_credit_charge-read}
use smbprotocol.Messages.Writing.{write, write-command, calculate_credit_charge-write}
use smbprotocol.Files.Chunks.{chunk_size, credits_for, available_credits}

some-pair : {a b n r : ℕ} → ◌≡◌ {A = Option (ℕ × ℕ)} (some (a, b)) (some (n, r)) → (n ≡ a) × (r ≡ b)
some-pair e = (cc, cc)

-- The chunk is as large as the length, the negotiated size and the credits allow, and no larger.
chunk-eq :
    (c : Connection) (max_size size : ℕ) {n r : ℕ}
    → chunk_size c max_size size ≡ some (n, r)
    → (n ≡ min size (min max_size (available_credits c * max_payload_size)))
      × (r
          ≡ credits_for n
            + (credits_for (min (size - n) max_size) - available_credits c - credits_for n))
      × (c.sequence_low ≤ c.sequence_high)
unfolding chunk_size
chunk-eq c max_size size {n} {r} e = elim (Bool-cases (ltb c.sequence_high c.sequence_low)) [
  | inl over ↦ absurd (refused over)
  | inr within ↦ given within
]
  where
    refused : ltb c.sequence_high c.sequence_low ≡ true → ⊥
    refused over = gone (rw over at e)
      where
        gone : ◌≡◌ {A = Option (ℕ × ℕ)} none (some (n, r)) → ⊥
        gone q = cc

    given :
        ltb c.sequence_high c.sequence_low ≡ false
        → (n ≡ min size (min max_size (available_credits c * max_payload_size)))
          × (r
              ≡ credits_for n
                + (credits_for (min (size - n) max_size) - available_credits c - credits_for n))
          × (c.sequence_low ≤ c.sequence_high)
    given within = let (ne, re) = some-pair (rw within at e) in (ne, rw ne re, ground arith)

pub chunk_size-some :
    (c : Connection) (max_size size : ℕ)
    → c.sequence_low ≤ c.sequence_high
    → (n : ℕ) × (r : ℕ) × (chunk_size c max_size size ≡ some (n, r))
unfolding chunk_size
chunk_size-some c max_size size h =
    pick (ltb c.sequence_high c.sequence_low) _ (ltb_ge c.sequence_high c.sequence_low h)
  where
    pick :
        (over : Bool) (x : ℕ × ℕ)
        → over ≡ false
        → (n : ℕ) × (r : ℕ) × ((if over then none else some x) ≡ some (n, r))
    pick false x e = (x.0, x.1, refl)
    pick true x e = cc

    ltb_ge : (a b : ℕ) → b ≤ a → ltb a b ≡ false
    ltb_ge a b h = ground arith

-- A chunk of data that is there, on a connection with a credit and a size, is not empty, and its credit
-- charge is within the window.
pub chunk-bounds :
    (c : Connection) (max_size size : ℕ) {n r : ℕ}
    → chunk_size c max_size size ≡ some (n, r)
    → c.sequence_low < c.sequence_high
    → (n ≤ size)
      × (n ≤ max_size)
      × (c.sequence_low + credits_for n ≤ c.sequence_high)
      × (credits_for n ≤ r)
      × (1 ≤ size → 1 ≤ max_size → 1 ≤ n)
chunk-bounds c max_size size {n} {r} e h =
    let (ne, re, within) = chunk-eq c max_size size e in
    (
      omega (arith, ne),
      omega (arith, ne),
      omega (arith, ne),
      omega (arith, re),
      λ l m. omega (arith, ne),
    )

-- When the server grants what was asked for, the window holds afterwards what it held before, or the
-- credits for what remains less those of the chunk, whichever is more.
pub credits_afterwards :
    (c : Connection) (max_size size : ℕ) {n r : ℕ}
    → chunk_size c max_size size ≡ some (n, r)
    → c.sequence_low < c.sequence_high
    → available_credits c - credits_for n + r
      ≡ max (available_credits c) (credits_for (min (size - n) max_size) - credits_for n)
credits_afterwards c max_size size {n} {r} e h =
    let (ne, re, within) = chunk-eq c max_size size e in omega (arith, ne, re)

-- The request of a chunk as `send` numbers and charges it, on a connection with credits.
abbrev pub Reserves : Connection → ℕ → Message → Type 0
Reserves c n m = reserve c none m ≡ (
  record c { sequence_low = c.sequence_low + credits_for n },
  ok (credits_for n, c.sequence_low),
)

paid :
    (c : Connection) (m : Message) {charge : Result ℕ}
    → c.supports_multi_credit ≡ true
    → calculate_credit_charge true m ≡ charge
    → calculate_credit_charge c.supports_multi_credit m ≡ charge
paid c m {charge} multi e = subst (λ b. calculate_credit_charge b m ≡ charge) (sym multi) e

-- On a connection with multi-credit support and at least one credit in the window, the read of a chunk is
-- built, and its message id and credits are reserved: neither its size nor the credits refuse it.
pub reserve-read_chunk :
    (c : Connection) (max_read_size : ℕ) (file_id : Bytes) (offset size : ℕ) {n r : ℕ}
    → c.supports_multi_credit ≡ true
    → c.sequence_low < c.sequence_high
    → chunk_size c max_read_size size ≡ some (n, r)
    → (m : Message) × (read max_read_size c.dialect file_id offset n 0 false ≡ ok m)
      × Reserves c n m
reserve-read_chunk c max_read_size file_id offset size {n} {r} multi h e =
    let (within, fits, charged, enough, some_) = chunk-bounds c max_read_size size e h in
    let (m, built, charge) = >>=-eq-ok (read max_read_size c.dialect file_id offset n 0 false) _ (
      calculate_credit_charge-read max_read_size c.dialect file_id offset n 0 false fits
        (λ q. cc)) in
    (
      m,
      built,
      reserve-fits c m (credits_for n) (paid c m multi charge)
          (rw (read-command max_read_size c.dialect file_id offset n 0 fits built) refl)
          (omega arith) charged,
    )

-- The write of a chunk of the data is likewise built, and its message id and credits are reserved.
pub reserve-write_chunk :
    (c : Connection) (max_write_size : ℕ) (file_id b : Bytes) (offset : ℕ) {n r : ℕ}
    → c.supports_multi_credit ≡ true
    → c.sequence_low < c.sequence_high
    → chunk_size c max_write_size (length b) ≡ some (n, r)
    → (m : Message) × (write max_write_size c.dialect file_id (take n b) offset false false ≡ ok m)
      × Reserves c n m
reserve-write_chunk c max_write_size file_id b offset {n} {r} multi h e =
    let (within, fits, charged, enough, some_) = chunk-bounds c max_write_size (length b) e h in
    let sized : length (take n b) ≡ n = omega (arith, length-take n b) in
    let fits_ : length (take n b) ≤ max_write_size = omega arith in
    let (m, built, charge) =
      >>=-eq-ok (write max_write_size c.dialect file_id (take n b) offset false false) _ (
        calculate_credit_charge-write max_write_size c.dialect file_id (take n b) offset false false
          fits_ (λ q. cc) (λ q. cc)) in
    (
      m,
      built,
      reserve-fits c m (credits_for n)
          (paid c m multi (charge ∙ ap (λ k. ok (credits_for k)) sized))
          (rw (write-command max_write_size c.dialect file_id (take n b) offset fits_ built) refl)
          (omega arith) charged,
    )
