-- ===== src/SwapDecoder/Fees.antt =====
-- The fee of a Raydium pool is that of its configuration, whichever account the decoder sees first.
use text.Mathlib.TextEquality.{eq_iff}
use lp_indexer.Prelude.{
  ℕ, ◌/◌, ◌%◌, ◌^◌, ◌≡◌, refl, String, Option, none, some, List, [], ◌∷◌, Result, ok, err, ◌==◌,
  string_eq, nat_eq, if◌then◌else◌, arith, Option-cases, inl, inr,
}
use lp_indexer.Prelude.Bytes.{Bytes}
use lp_indexer.Prelude.Maps.{lookup, insert, Distinct, lookup-insert, insert-Distinct}
use lp_indexer.SlotCache.{SlotCache}
use lp_indexer.Prelude.{if_intro}
use lp_indexer.Raydium.Instruction
use lp_indexer.Pools.Orca.{decode_orca_pool}
use lp_indexer.SwapDecoder.State.{whirlpool_program_id}
use lp_indexer.Yellowstone.{AccountUpdate, AccountInfo}
use lp_indexer.Pools.Orca.{OrcaPoolError, OrcaPoolInfo}
use lp_indexer.SwapDecoder.State.{
  Decoder, new, RaydiumAccount, pool_account, config_account, unrecognised, classify, index_pool,
  set_pool_fees, index_config, index_account, index_orca, handle_owned, handle_info, handle_account,
}

-- Each indexed pool whose configuration's fee is known has that fee.
pub record FeesAgree (d : Decoder) : Type 0 where
  pub distinct : Distinct d.pool_config
  pub agree :
      (pool config : String) (fee : ℕ)
      → lookup pool d.pool_config ≡ some config
      → lookup config d.config_fees ≡ some fee
      → lookup pool d.pool_fees ≡ some fee

lookup-set_pool_fees :
    (key : String) (fee : ℕ) (pools : List (String × String)) (fees : List (String × ℕ))
    (p : String)
    → Distinct pools
    → lookup p (set_pool_fees key fee pools fees) ≡ elim (lookup p pools) [
      | none ↦ lookup p fees
      | some cfg ↦ if cfg == key then some fee else lookup p fees
    ]
unfolding lookup set_pool_fees
lookup-set_pool_fees key fee [] fees p d = refl
lookup-set_pool_fees key fee ((q, cfg) ∷ pools) fees p d = ground (
  arith,
  eq_iff q p,
  lookup-insert q p fee fees,
  lookup-set_pool_fees key fee pools (if cfg == key then insert q fee fees else fees) p d.1,
)

module _ {d : Decoder} (pubkey : String) (h : FeesAgree d) where
  index_pool-FeesAgree : (config_key : String) → FeesAgree (index_pool pubkey config_key d)
  unfolding index_pool
  index_pool-FeesAgree config_key = record {
    distinct = insert-Distinct pubkey config_key d.pool_config h.distinct;
    agree = λ p c f has_config has_fee. elim (Option-cases (lookup config_key d.config_fees)) [
      | inl unknown ↦ rw unknown (
          ground (
            arith,
            lookup-insert pubkey p config_key d.pool_config,
            eq_iff pubkey p,
            h.agree p c f,
          ))
      | inr (fee, known) ↦
          rw (known, lookup-insert)
            (ground (
              arith,
              lookup-insert pubkey p config_key d.pool_config,
              eq_iff pubkey p,
              h.agree p c f,
            ))
    ];
  }

  index_config-FeesAgree : (rate : ℕ) → FeesAgree (index_config pubkey rate d)
  unfolding index_config
  index_config-FeesAgree rate =
      let fee = rate / 100 % 2 ^ 16 in
      record {
        distinct = h.distinct;
        agree = λ p c f has_config has_fee. ground (
          arith,
          lookup-set_pool_fees pubkey fee d.pool_config d.pool_fees p h.distinct,
          lookup-insert pubkey c fee d.config_fees,
          eq_iff pubkey c,
          eq_iff c pubkey,
          h.agree p c f,
        );
      }

  module _ (encode : Bytes → String) where
    index_account-FeesAgree :
        (account : RaydiumAccount) → FeesAgree (index_account encode pubkey account d)
    unfolding index_account
    index_account-FeesAgree (pool_account cfg) = index_pool-FeesAgree (encode cfg)
    index_account-FeesAgree (config_account rate) = index_config-FeesAgree rate
    index_account-FeesAgree unrecognised = h

    index_orca-FeesAgree :
        (r : Result OrcaPoolError OrcaPoolInfo) → FeesAgree (index_orca encode pubkey r d)
    unfolding index_orca
    index_orca-FeesAgree (ok info) = record { distinct = h.distinct; agree = h.agree }
    index_orca-FeesAgree (err e) = h

    handle_owned-FeesAgree :
        (owner : String) (bytes : Bytes) → FeesAgree (handle_owned encode owner pubkey bytes d)
    unfolding handle_owned
    handle_owned-FeesAgree owner bytes =
        if_intro FeesAgree (owner == Instruction.program_id)
          (index_account-FeesAgree (classify bytes))
          (if_intro FeesAgree (owner == whirlpool_program_id)
            (index_orca-FeesAgree (decode_orca_pool encode bytes)) h)

module _ (encode : Bytes → String) where
  handle_info-FeesAgree :
      (info : Option AccountInfo) {d : Decoder}
      → FeesAgree d
      → FeesAgree (handle_info encode info d)
  unfolding handle_info
  handle_info-FeesAgree none h = h
  handle_info-FeesAgree (some info) h =
      handle_owned-FeesAgree (encode info.pubkey) h encode (encode info.owner) info.payload

  handle_account-FeesAgree :
      (update : Option AccountUpdate) {d : Decoder}
      → FeesAgree d
      → FeesAgree (handle_account encode update d)
  unfolding handle_account
  handle_account-FeesAgree none h = h
  handle_account-FeesAgree (some update) h = handle_info-FeesAgree update.account h

-- The decoder after a run of account updates, from a new one.
unfoldable pub handle_accounts : (Bytes → String) → List (Option AccountUpdate) → Decoder → Decoder
handle_accounts encode [] d = d
handle_accounts encode (update ∷ updates) d =
    handle_accounts encode updates (handle_account encode update d)

run-FeesAgree :
    (encode : Bytes → String) (updates : List (Option AccountUpdate)) {d : Decoder}
    → FeesAgree d
    → FeesAgree (handle_accounts encode updates d)
unfolding handle_accounts
run-FeesAgree encode [] h = h
run-FeesAgree encode (update ∷ updates) h =
    run-FeesAgree encode updates (handle_account-FeesAgree encode update h)

new-FeesAgree : (cache : Option (SlotCache ℕ)) → FeesAgree (new cache)
unfolding new lookup
new-FeesAgree none = record { distinct = tt; agree = λ p c f h k. absurd (ground arith) }
new-FeesAgree (some cache) = record { distinct = tt; agree = λ p c f h k. absurd (ground arith) }

-- After any account updates on a new decoder, in whichever order the pool's and the configuration's
-- accounts arrive, an indexed pool whose configuration's fee is known has exactly that fee.
pub handle_accounts-fees :
    (encode : Bytes → String) (updates : List (Option AccountUpdate)) (cache : Option (SlotCache ℕ))
    (pool config : String) (fee : ℕ)
    → lookup pool (handle_accounts encode updates (new cache)).pool_config ≡ some config
    → lookup config (handle_accounts encode updates (new cache)).config_fees ≡ some fee
    → lookup pool (handle_accounts encode updates (new cache)).pool_fees ≡ some fee
handle_accounts-fees encode updates cache pool config fee =
    (run-FeesAgree encode updates (new-FeesAgree cache)).agree pool config fee
