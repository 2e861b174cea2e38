-- ===== src/Anchor/Record.antt =====
-- The records of public-record/src/anchor/types.ts and the block header of ledger/connector.ts.
use oursay.Base.{ℕ, String, Option, List, [], ◌∷◌}
use oursay.Schema.Types.{RecordType, Op}
use oursay.Crypto.Merkle.{MerkleStep}
use oursay.Crypto.Canonical.{Json, num, str, arr, obj, Items, end, item, close, member, or_null}

pub record ImmudbRootRef : Type 0 where
  pub db : String
  pub tx_id : ℕ
  pub tx_hash_hex : String

pub record BlockAttestation : Type 0 where
  pub pubkey : String
  pub signature : String

-- A settled block's header on the append-only chain.
pub record BlockHeader : Type 0 where
  pub chain_id : String
  pub block_height : ℕ
  pub from_seq : ℕ
  pub to_seq : ℕ
  pub tx_count : ℕ
  pub bundle_merkle_root : String
  pub chain_tip_hash : String
  pub prev_block_root : Option String
  pub prev_chain_tip_hash : Option String
  pub immudb_root : ImmudbRootRef
  pub proposer : Option String
  pub attestations : List BlockAttestation
  pub captured_at : String

-- The published witness of a block: the header's fields, and the hash of the anchor published
-- before. The version field is the constant 1.
pub record AnchorRecord : Type 0 where
  pub chain_id : String
  pub block_height : ℕ
  pub from_seq : ℕ
  pub to_seq : ℕ
  pub tx_count : ℕ
  pub bundle_merkle_root : String
  pub immudb_root : ImmudbRootRef
  pub prev_block_root : Option String
  pub chain_tip_hash : String
  pub prev_chain_tip_hash : Option String
  pub proposer : Option String
  pub attestations : List BlockAttestation
  pub prev_anchor_hash : Option String
  pub captured_at : String

pub record Reveal : Type 0 where
  pub salt : String
  pub content : Json

pub record BlockEntry : Type 0 where
  pub tx_id : String
  pub seq : ℕ
  pub entity_id : String
  pub type : RecordType
  pub op : Op
  pub envelope : String
  pub leaf_hash : String
  pub merkle_proof : List MerkleStep
  pub reveal : Option Reveal

pub record BlockBundle : Type 0 where
  pub anchor : AnchorRecord
  pub entries : List BlockEntry

attestation_items : List BlockAttestation → Items
attestation_items [] = end
attestation_items (a ∷ rest) =
    item (obj (member "pubkey" (str a.pubkey) (member "signature" (str a.signature) close)))
      (attestation_items rest)

immudb_json : ImmudbRootRef → Json
immudb_json r = obj (
    member "db" (str r.db)
      (member "txId" (num r.tx_id) (member "txHashHex" (str r.tx_hash_hex) close)))

-- An anchor as the value that is serialised, its members in the order in which they are written.
pub anchor_json : AnchorRecord → Json
unfolding attestation_items immudb_json
anchor_json a = obj (
    member "v" (num 1) (
      member "chainId" (str a.chain_id) (
        member "blockHeight" (num a.block_height) (
          member "fromSeq" (num a.from_seq) (
            member "toSeq" (num a.to_seq) (
              member "txCount" (num a.tx_count) (
                member "bundleMerkleRoot" (str a.bundle_merkle_root) (
                  member "immudbRoot" (immudb_json a.immudb_root) (
                    member "prevBlockRoot" (or_null a.prev_block_root) (
                      member "chainTipHash" (str a.chain_tip_hash) (
                        member "prevChainTipHash" (or_null a.prev_chain_tip_hash) (
                          member "proposer" (or_null a.proposer) (
                            member "attestations" (arr (attestation_items a.attestations)) (
                              member "prevAnchorHash" (or_null a.prev_anchor_hash)
                                (member "capturedAt" (str a.captured_at) close)))))))))))))))
