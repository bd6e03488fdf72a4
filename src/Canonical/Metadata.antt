-- ===== src/Canonical/Metadata.antt =====
-- decoder/common/mint_metadata.go: mint metadata, the provider's interface, its in-memory
-- implementation, and the base and quote of two mints.
pub mod Order
use lp_indexer.Prelude.{
  ℕ, Bool, String, Option, none, some, List, [], ◌∷◌, Result, ok, err, ◌>>=◌, ltb, nat_beq,
  if◌then◌else◌, string_eq,
}
use lp_indexer.Prelude.Maps.{lookup, insert}
use lp_indexer.Prelude.Text.{str_le}

-- `MintMetadata`
pub record MintMetadata : Type 0 where
  pub address : String
  pub symbol : String
  pub decimals : ℕ
  pub name : String

-- `fmt.Errorf("mint metadata not found for address: %s", mintAddress)`; `provider_error` stands for
-- the errors of other providers.
pub data MetadataError : Type 0 where
  metadata_not_found : String → MetadataError
  provider_error : String → MetadataError

-- `MintMetadataProvider`, as far as the decoders read it
pub record MintMetadataProvider : Type 0 where
  pub get_mint_metadata : String → Result MetadataError MintMetadata
  pub get_decimals : String → Result MetadataError ℕ

abbrev pub Store : Type 0
Store = List (String × MintMetadata)

abbrev common_mints : List MintMetadata
common_mints =
    record {
      address = "So11111111111111111111111111111111111111112";
      symbol = "SOL";
      decimals = 9;
      name = "Wrapped SOL";
    }
    ∷ record {
      address = "EPjFWdd5AufqSSqeM2qN1xzybapC8G4wEGGkZwyTDt1v";
      symbol = "USDC";
      decimals = 6;
      name = "USD Coin";
    }
    ∷ record {
      address = "Es9vMFrzaCERmJfrF4H2FYD4KCoNkY11McCe8BenwNYB";
      symbol = "USDT";
      decimals = 6;
      name = "USDT";
    }
    ∷ record {
      address = "7vfCXTUXx5WJV5JADk17DUJ4ksgau7utNKj4b963voxs";
      symbol = "ORCA";
      decimals = 6;
      name = "Orca";
    }
    ∷ []

-- `AddMintMetadata`
unfoldable pub add_mint_metadata : MintMetadata → Store → Store
add_mint_metadata metadata store = insert metadata.address metadata store

add_all : List MintMetadata → Store → Store
add_all [] store = store
add_all (metadata ∷ rest) store = add_all rest (add_mint_metadata metadata store)

-- `NewInMemoryMintMetadataProvider`
unfoldable pub new : Store
unfolding add_all add_mint_metadata
new = add_all common_mints []

-- `(*InMemoryMintMetadataProvider).GetMintMetadata`
unfoldable pub get_mint_metadata : Store → String → Result MetadataError MintMetadata
get_mint_metadata store mint = elim (lookup mint store) [
  | none ↦ err (metadata_not_found mint)
  | some metadata ↦ ok metadata
]

-- `(*InMemoryMintMetadataProvider).GetDecimals`
unfoldable pub get_decimals : Store → String → Result MetadataError ℕ
get_decimals store mint = do metadata ← get_mint_metadata store mint; ok metadata.decimals

abbrev pub in_memory : Store → MintMetadataProvider
in_memory store = record {
  get_mint_metadata = get_mint_metadata store;
  get_decimals = get_decimals store;
}

abbrev canonical_priority : List (String × ℕ)
canonical_priority = ("USDC", 100) ∷ ("USDT", 90) ∷ ("SOL", 80) ∷ ("default", 0) ∷ []

-- `getPriority`; the key "default" is in the table, with the value 0
unfoldable pub get_priority : String → ℕ
get_priority symbol = elim (lookup symbol canonical_priority) [
  | some priority ↦ priority
  | none ↦ elim (lookup "default" canonical_priority) [ some priority ↦ priority | none ↦ 0 ]
]

-- the `switch` of `DetermineBaseQuote`, on the tests `==` and `>` of the two priorities
abbrev choose : Bool → Bool → String → String → Result MetadataError (String × String)
choose same higher mint_a mint_b =
    if same
    then (if str_le mint_a mint_b then ok (mint_a, mint_b) else ok (mint_b, mint_a))
    else if higher
    then ok (mint_b, mint_a)
    else ok (mint_a, mint_b)

-- `DetermineBaseQuote`: the base and the quote
unfoldable pub determine_base_quote :
    String → String → MintMetadataProvider → Result MetadataError (String × String)
determine_base_quote mint_a mint_b provider = do
  metadata_a ← provider.get_mint_metadata mint_a
  metadata_b ← provider.get_mint_metadata mint_b
  let priority_a = get_priority metadata_a.symbol
  let priority_b = get_priority metadata_b.symbol
  choose (nat_beq priority_a priority_b) (ltb priority_b priority_a) mint_a mint_b
