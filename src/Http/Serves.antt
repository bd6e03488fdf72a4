-- ===== src/Http/Serves.antt =====
-- What the handler of candles serves after it has served some.
use mathlib.Core.Path.{sym, ap, ◌∙◌}
use lp_indexer.Prelude.{
  ℕ, suc, ◌≡◌, ◌≢◌, refl, ◌⊎◌, inl, inr, true, false, Option, none, some, List, [], ◌∷◌, ◌++◌,
  Result, ok, err, arith, length, length-append, drop, Bool-cases, ◌==◌,
}
use lp_indexer.Prelude.Bytes.{Bytes, codes, bytes_beq}
use lp_indexer.Prelude.Maps.{lookup, insert, lookup-insert}
use lp_indexer.Parquet.Keys.{bytes_eq}
use lp_indexer.Http.{
  invalid_timeframe, CacheError, disabled, not_found, store_failed, bad_payload, bad_candles,
  internal_error, respond, cached, on_payload, Candle, Setup, Store, Cache, Response,
  candles_response, validate_timeframe, is_supported, key, get_candles, set_candles, on_cached,
  candles_handler, or_stub,
}

-- two texts that end in texts of one length are equal in both parts
append-cancel : (x x' y y' : Bytes) → length y ≡ length y' → x ++ y ≡ x' ++ y' → (x ≡ x') × (y ≡ y')
append-cancel [] [] y y' same h = (refl, h)
append-cancel [] (c ∷ x') y y' same h =
    absurd (omega (arith, ap length h, same, length-append x' y'))
append-cancel (c ∷ x) [] y y' same h = absurd (omega (arith, ap length h, same, length-append x y))
append-cancel (c ∷ x) (c' ∷ x') y y' same h =
    let rest : x ++ y ≡ x' ++ y' = cc in
    let (fronts, backs) = append-cancel x x' y y' same rest in (cc, backs)

-- the timeframes that are served are of two bytes
length-supported : (tf : Bytes) → is_supported tf ≡ true → length tf ≡ 2
length-supported tf h = elim (Bool-cases (bytes_beq tf (codes "1m"))) [
  | inl m ↦ ap length ((bytes_eq.beq_iff tf (codes "1m")).0 m)
  | inr not_m ↦ elim (Bool-cases (bytes_beq tf (codes "5m"))) [
    | inl m ↦ ap length ((bytes_eq.beq_iff tf (codes "5m")).0 m)
    | inr not_5m ↦ elim (Bool-cases (bytes_beq tf (codes "1h"))) [
      | inl hour ↦ ap length ((bytes_eq.beq_iff tf (codes "1h")).0 hour)
      | inr not_h ↦
          ap length ((bytes_eq.beq_iff tf (codes "1d")).0 (rw (not_m, not_5m, not_h) at h))
    ]
  ]
]

length-valid : (tf : Bytes) → validate_timeframe tf ≡ none → length tf ≡ 2
unfolding validate_timeframe
length-valid [] h = absurd (ground (arith, h))
length-valid (c ∷ tf) h = elim (Bool-cases (is_supported (c ∷ tf))) [
  | inl supported ↦ length-supported (c ∷ tf) supported
  | inr other ↦
      let refused : some invalid_timeframe ≡ none = rw other at h in
      absurd (ground (arith, refused))
]

-- the keys of different pools or timeframes differ
key-injective :
    (pool pool' tf tf' : Bytes)
    → validate_timeframe tf ≡ none
    → validate_timeframe tf' ≡ none
    → key pool tf ≡ key pool' tf'
    → (pool ≡ pool') × (tf ≡ tf')
unfolding key
key-injective pool pool' tf tf' valid valid' h =
    let same : length (codes ":candles:" ++ tf) ≡ length (codes ":candles:" ++ tf') =
      omega (arith, length-valid tf valid, length-valid tf' valid') in
    let behind : pool ++ (codes ":candles:" ++ tf) ≡ pool' ++ (codes ":candles:" ++ tf') =
      ap (drop 5) h in
    let (pools, tails) = append-cancel pool pool' _ _ same behind in (pools, ap (drop 9) tails)

-- a cache with a client
abbrev pub cache : Cache
cache = record { enabled = true }

module _ {Float : Type 0} (setup : Setup Float) where
  abbrev body : Bytes → Bytes → Result CacheError (Option (List (Candle Float))) → Response Float
  body pool tf (ok candles) = candles_response pool tf (or_stub setup tf candles)
  body pool tf (err disabled) = candles_response pool tf (or_stub setup tf none)
  body pool tf (err not_found) = candles_response pool tf (or_stub setup tf none)
  body pool tf (err e) = internal_error

  on_cached-body :
      (pool tf : Bytes) (r : Result CacheError (Option (List (Candle Float)))) (store : Store)
      → (on_cached setup (some cache) pool tf r store).0 ≡ body pool tf r
  unfolding on_cached
  on_cached-body pool tf (ok candles) store = refl
  on_cached-body pool tf (err disabled) store = refl
  on_cached-body pool tf (err not_found) store = refl
  on_cached-body pool tf (err store_failed) store = refl
  on_cached-body pool tf (err bad_payload) store = refl
  on_cached-body pool tf (err bad_candles) store = refl

  candles-injective :
      {pool tf : Bytes} {xs ys : List (Candle Float)}
      → candles_response pool tf xs ≡ candles_response pool tf ys
      → xs ≡ ys
  candles-injective h = cc

  differ :
      {pool tf : Bytes} {ys : List (Candle Float)} → internal_error ≢ candles_response pool tf ys
  differ h = ground (arith, h)

  respond-stores :
      (pool tf : Bytes) (xs ys : List (Candle Float)) (store store' : Store)
      → respond setup (some cache) pool tf xs store ≡ (candles_response pool tf ys, store')
      → store' ≡ (set_candles setup (some cache) pool tf ys store).1
  respond-stores pool tf xs ys store store' h =
      let same : xs ≡ ys = candles-injective (ap (λ r. r.0) h) in
      sym (ap (λ r. r.1) h) ∙ ap (λ l. (set_candles setup (some cache) pool tf l store).1) same

  on_cached-stores :
      (pool tf : Bytes) (r : Result CacheError (Option (List (Candle Float))))
      (ys : List (Candle Float)) (store store' : Store)
      → on_cached setup (some cache) pool tf r store ≡ (candles_response pool tf ys, store')
      → store' ≡ (set_candles setup (some cache) pool tf ys store).1
  unfolding on_cached
  on_cached-stores pool tf (ok candles) ys store store' h =
      respond-stores pool tf _ ys store store' h
  on_cached-stores pool tf (err disabled) ys store store' h =
      respond-stores pool tf _ ys store store' h
  on_cached-stores pool tf (err not_found) ys store store' h =
      respond-stores pool tf _ ys store store' h
  on_cached-stores pool tf (err store_failed) ys store store' h = absurd (differ (ap (λ r. r.0) h))
  on_cached-stores pool tf (err bad_payload) ys store store' h = absurd (differ (ap (λ r. r.0) h))
  on_cached-stores pool tf (err bad_candles) ys store store' h = absurd (differ (ap (λ r. r.0) h))

  module _ (works : (n : ℕ) → setup.works n ≡ true) where
    -- the answer to a request, by the entries of the store
    abbrev answer : Bytes → Bytes → List (Bytes × Bytes) → Response Float
    answer pool tf entries = body pool tf (on_payload setup (lookup (key pool tf) entries))

    handler-answer :
        (pool tf : Bytes) (store : Store)
        → validate_timeframe tf ≡ none
        → (candles_handler setup (some cache) pool tf store).0 ≡ answer pool tf store.entries
    unfolding candles_handler cached get_candles
    handler-answer pool tf store valid =
        rw (valid, works store.commands)
          (on_cached-body pool tf (on_payload setup (lookup (key pool tf) store.entries))
            (record store { commands = suc store.commands }))

    stored_entries :
        (pool tf : Bytes) (ys : List (Candle Float)) (payload : Bytes) (store : Store)
        → setup.encode ys ≡ some payload
        → (set_candles setup (some cache) pool tf ys store).1.entries
          ≡ insert (key pool tf) payload store.entries
    unfolding set_candles
    stored_entries pool tf ys payload store encodes = rw (encodes, works store.commands) refl

    handler-entries :
        (pool tf : Bytes) (ys : List (Candle Float)) (payload : Bytes) (store store' : Store)
        → validate_timeframe tf ≡ none
        → setup.encode ys ≡ some payload
        → candles_handler setup (some cache) pool tf store ≡ (candles_response pool tf ys, store')
        → store'.entries ≡ insert (key pool tf) payload store.entries
    unfolding candles_handler cached get_candles
    handler-entries pool tf ys payload store store' valid encodes h =
        let served = rw (valid, works store.commands) at h in
        ap (λ s. s.entries)
          (on_cached-stores pool tf (on_payload setup (lookup (key pool tf) store.entries)) ys
            (record store { commands = suc store.commands }) store' served)
        ∙ stored_entries pool tf ys payload _ encodes

    -- what is served after a request
    pub record Serves (pool tf : Bytes) (ys : List (Candle Float)) (before after : Store)
        : Type 0 where
      pub again : (candles_handler setup (some cache) pool tf after).0 ≡ candles_response pool tf ys
      pub others :
          (pool' tf' : Bytes)
          → validate_timeframe tf' ≡ none
          → (pool ≢ pool') ⊎ (tf ≢ tf')
          → (candles_handler setup (some cache) pool' tf' after).0
            ≡ (candles_handler setup (some cache) pool' tf' before).0

    other_key :
        (pool tf pool' tf' : Bytes)
        → validate_timeframe tf ≡ none
        → validate_timeframe tf' ≡ none
        → (pool ≢ pool') ⊎ (tf ≢ tf')
        → (key pool tf == key pool' tf') ≡ false
    other_key pool tf pool' tf' valid valid' differs =
        elim (Bool-cases (key pool tf == key pool' tf')) [
          | inl same ↦
              let (pools, tfs) =
                key-injective pool pool' tf tf' valid valid'
                  ((bytes_eq.beq_iff (key pool tf) (key pool' tf')).0 same) in
              absurd (elim differs [ inl d ↦ d pools | inr d ↦ d tfs ])
          | inr other ↦ other
        ]

    -- With a cache that is enabled and whose store takes every command, and with JSON that reads back the candles that were
    -- served, a request that was answered with candles, the stub's or others, is answered with the same
    -- candles the next time, and the answers for all other pools and timeframes stay as they were.
    pub candles_handler-Serves :
        (pool tf : Bytes) (ys : List (Candle Float)) (payload : Bytes) (store store' : Store)
        → validate_timeframe tf ≡ none
        → setup.encode ys ≡ some payload
        → setup.decode payload ≡ some (some ys)
        → candles_handler setup (some cache) pool tf store ≡ (candles_response pool tf ys, store')
        → Serves pool tf ys store store'
    candles_handler-Serves pool tf ys payload store store' valid encodes decodes h =
        let entries = handler-entries pool tf ys payload store store' valid encodes h in
        record {
          again =
              handler-answer pool tf store' valid
              ∙ ap (answer pool tf) entries
              ∙ rw
                  (
                    lookup-insert (key pool tf) (key pool tf) payload store.entries,
                    (bytes_eq.beq_iff (key pool tf) (key pool tf)).1 refl,
                    decodes,
                  )
                  refl;
          others = λ pool' tf' valid' differs.
              handler-answer pool' tf' store' valid'
              ∙ ap (answer pool' tf') entries
              ∙ rw
                  (
                    lookup-insert (key pool tf) (key pool' tf') payload store.entries,
                    other_key pool tf pool' tf' valid valid' differs,
                  )
                  refl
              ∙ sym (handler-answer pool' tf' store valid');
        }
