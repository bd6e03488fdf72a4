-- ===== src/ClickHouse/Connect/Tries.antt =====
-- How often, and after which waits, the ClickHouse writer tries to connect.
use mathlib.Core.Path.{sym, ap, ◌∙◌, subst}
use native.Mathlib.Nat.{pow-suc, mul_assoc}
use Prim.Native.Nat.{min}
use lp_indexer.Prelude.{
  ℕ, zero, suc, ◌+◌, ◌*◌, ◌^◌, ◌≤◌, ◌<◌, ◌≡◌, inl, inr, Bool, true, false, List, [], Option, ok,
  ◌∷◌, ◌++◌, arith, Bool-cases, ltb,
}
use lp_indexer.Prelude.Bytes.{Bytes}
use lp_indexer.Prelude.Int.{pos}
use lp_indexer.ClickHouse.Connect.{
  Config, Url, Options, parse_dsn, or_default, connect_with_retry, next_backoff, Connection,
  connected, cancelled, failed, connect_loop,
}

-- the waits of a configuration, or their defaults
abbrev pub base_of : Config → ℕ
base_of c = or_default 100000000 c.retry_backoff_base

abbrev pub top_of : Config → ℕ
top_of c = or_default 10000000000 c.retry_backoff_max

-- the wait after the n-th dial: the base at first, and then twice as much each time, up to the maximum
abbrev pub wait_after : ℕ → ℕ → ℕ → ℕ
wait_after base top zero = base
wait_after base top (suc n) = min (base * 2 ^ suc n) top

abbrev pub waits_before : ℕ → ℕ → ℕ → List ℕ
waits_before base top zero = []
waits_before base top (suc n) = waits_before base top n ++ wait_after base top n ∷ []

next_backoff-min : (top x : ℕ) → top < 2 ^ 62 → x < 2 ^ 62 → next_backoff top x ≡ min (x * 2) top
unfolding next_backoff
next_backoff-min top x small small' = ground arith

wait_after-lt : (base top n : ℕ) → base < 2 ^ 62 → top < 2 ^ 62 → wait_after base top n < 2 ^ 62
wait_after-lt base top zero h h' = h
wait_after-lt base top (suc n) h h' = omega arith

next_wait :
    (base top n : ℕ)
    → base < 2 ^ 62
    → top < 2 ^ 62
    → next_backoff top (wait_after base top n) ≡ wait_after base top (suc n)
next_wait base top zero h h' = next_backoff-min top base h' h ∙ ap (λ x. min x top) (omega arith)
next_wait base top (suc n) h h' =
    next_backoff-min top _ h' (wait_after-lt base top (suc n) h h')
    ∙ (let twice : base * 2 ^ suc (suc n) ≡ base * 2 ^ suc n * 2 =
          ap (λ p. base * p) (pow-suc 2 (suc n)) ∙ sym (mul_assoc base (2 ^ suc n) 2) in
        omega (arith, twice))

module _ (dials ends : Options → ℕ → Bool) (opts : Options) where
  -- the dials before the given one have failed, and the waits after them have passed
  pub record Tried (n : ℕ) : Type 0 where
    pub dialled : (k : ℕ) → k < n → dials opts k ≡ false
    pub waited : (k : ℕ) → k < n → ends opts k ≡ false

  -- what the loop returns, and its waits, where it may dial once and then again `retries` times
  pub data Tries (base top retries : ℕ) : Connection × List ℕ → Type 0 where
    connects :
        (n : ℕ)
        → n ≤ retries
        → Tried n
        → dials opts n ≡ true
        → Tries base top retries (connected n, waits_before base top n)
    cancels :
        (n : ℕ)
        → n < retries
        → Tried n
        → dials opts n ≡ false
        → ends opts n ≡ true
        → Tries base top retries (cancelled, waits_before base top n)
    gives_up :
        Tried retries
        → dials opts retries ≡ false
        → Tries base top retries (failed, waits_before base top retries)

  Tried-next : (n : ℕ) → Tried n → dials opts n ≡ false → ends opts n ≡ false → Tried (suc n)
  Tried-next n h fails passes = record {
    dialled = λ k less. elim (Bool-cases (ltb k n)) [
      | inl before ↦ h.dialled k (ground arith)
      | inr not_before ↦ subst (λ m. dials opts m ≡ false) (ground arith) fails
    ];
    waited = λ k less. elim (Bool-cases (ltb k n)) [
      | inl before ↦ h.waited k (ground arith)
      | inr not_before ↦ subst (λ m. ends opts m ≡ false) (ground arith) passes
    ];
  }

  connect_loop-Tries :
      (base top left n retries : ℕ)
      → base < 2 ^ 62
      → top < 2 ^ 62
      → n + left ≡ retries
      → Tried n
      → Tries base top retries (
          connect_loop dials ends opts top
            (suc left)
            n
            (wait_after base top n)
            (waits_before base top n))
  unfolding connect_loop
  connect_loop-Tries base top zero n retries h h' e tried = elim (Bool-cases (dials opts n)) [
    | inl up ↦ rw up (connects n (omega arith) tried up)
    | inr down ↦ rw down (
        subst (λ m. Tries base top m (failed, waits_before base top n)) (omega arith)
          (gives_up tried down))
  ]
  connect_loop-Tries base top (suc left) n retries h h' e tried = elim (Bool-cases (dials opts n)) [
    | inl up ↦ rw up (connects n (omega arith) tried up)
    | inr down ↦ elim (Bool-cases (ends opts n)) [
      | inl done ↦ rw (down, done) (cancels n (omega arith) tried down done)
      | inr passes ↦
          rw (down, passes, next_wait base top n h h')
            (connect_loop-Tries base top left (suc n) retries h h' (omega arith)
              (Tried-next n tried down passes))
    ]
  ]

module _ (dials ends : Options → ℕ → Bool) (parse : Bytes → Option Url) where
  -- Where the DSN can be parsed and the base and the maximum of the waits are below 2^62 nanoseconds,
  -- `connectWithRetry` dials at most once more than the retries of the configuration. It returns the client
  -- of the first dial that succeeds, stops with an error where the context ends during a wait, and gives up
  -- only after all of its dials have failed. The waits between the dials are the base and then its
  -- doublings, cut at the maximum.
  pub connect_with_retry-Tries :
      (c : Config) (opts : Options) (retries : ℕ)
      → parse_dsn (parse c.dsn) ≡ ok opts
      → c.max_retries ≡ pos retries
      → base_of c < 2 ^ 62
      → top_of c < 2 ^ 62
      → Tries dials ends
          (record opts { database = c.database })
          (base_of c)
          (top_of c)
          retries
          (connect_with_retry dials ends parse c)
  unfolding connect_with_retry
  connect_with_retry-Tries c opts retries parsed allowed h h' =
      rw (parsed, allowed)
        (connect_loop-Tries dials ends (record opts { database = c.database }) (base_of c)
          (top_of c) retries 0 retries h h' (omega arith)
          (record {
            dialled = λ k less. absurd (omega arith);
            waited = λ k less. absurd (omega arith);
          }))
