-- ===== src/Anchor/Verify/Examples.antt =====
-- Runs of anchor/verify.ts over the toy hasher: a block of three transactions, and a chain of two.
use oursay.Schema.Types.{civic, vote, create}
use oursay.Base.{
  ◌≡◌, ◌↔◌, ◌⊎◌, refl, ℕ, String, true, Option, none, some, List, [], ◌∷◌, map, All, length,
}
use oursay.Crypto.Hash.{Collides, hash_leaf, hash_node, sha256_hex}
use oursay.Crypto.Toy.{toy, toy-Lawful, zero_hex, one_hex}
use oursay.Crypto.Merkle.{
  MerkleStep, left, right, merkle_root, next_level, verify_merkle_proof, join,
}
use oursay.Crypto.Canonical.{
  str, obj, close, member, Codec, content_commitment, canonical_hash, canonical_json,
}
use oursay.Anchor.Record.{AnchorRecord, BlockEntry, BlockBundle, Reveal, ImmudbRootRef}
use oursay.Anchor.Tip.{compute_chain_tip_hash}
use oursay.Anchor.Tip.Binding.{fold_tips, tip_inputs}
use oursay.Anchor.Verify.{
  BlockReport, EntryStatus, revealed, withheld, check_reveal, verify_block, verify_chain,
  anchor_hash, verify_chain_link,
}
use oursay.Anchor.Verify.Entries.{IsGenuine, verify_block_sound}
use oursay.Anchor.Verify.Chain.{IsIntact, verify_chain_iff}
use oursay.Anchor.Verify.History.{roots, root_bytes, verify_chain-fold_tips, verify_chain_binding}

-- A serialiser with one text, whose envelopes all carry one commitment.
abbrev codec : Codec
codec = record {
  stringify = λ j. "0";
  parse = λ s. some (obj (member "txId" (str "t1") (member "contentHash" (str zero_hex) close)));
  key_le = λ a b. true;
}

abbrev immudb : ImmudbRootRef
immudb = record { db = "oursay"; tx_id = 7; tx_hash_hex = one_hex }

abbrev genesis : AnchorRecord
genesis = record {
  chain_id = "canada";
  block_height = 1;
  from_seq = 0;
  to_seq = 3;
  tx_count = 3;
  bundle_merkle_root = one_hex;
  immudb_root = immudb;
  prev_block_root = none;
  chain_tip_hash = one_hex;
  prev_chain_tip_hash = none;
  proposer = none;
  attestations = [];
  prev_anchor_hash = none;
  captured_at = "2026-01-01T00:00:00.000Z";
}

abbrev second : AnchorRecord
second = record genesis {
  block_height = 2;
  from_seq = 3;
  to_seq = 6;
  prev_block_root = some one_hex;
  chain_tip_hash = zero_hex;
  prev_chain_tip_hash = some one_hex;
  prev_anchor_hash = some zero_hex;
}

abbrev entry : ℕ → String → String → List MerkleStep → Option Reveal → BlockEntry
entry seq envelope leaf proof reveal = record {
  tx_id = "t1";
  seq = seq;
  entity_id = "e1";
  type = civic vote;
  op = create;
  envelope = envelope;
  leaf_hash = leaf;
  merkle_proof = proof;
  reveal = reveal;
}

abbrev bundle : BlockBundle
bundle = record {
  anchor = genesis;
  entries =
      entry 1 "1" one_hex
        (record { hash = zero_hex; side = right } ∷ record { hash = zero_hex; side = right } ∷ [])
        (some (record { salt = "s"; content = str "yes" }))
      ∷ entry 2 "2" zero_hex
          (record { hash = one_hex; side = left } ∷ record { hash = zero_hex; side = right } ∷ [])
          none
      ∷ entry 3 "4" zero_hex (record { hash = zero_hex; side = left } ∷ []) none
      ∷ [];
}

verify_block_sound_example :
    (one_hex ≡ one_hex)
    × (bundle.anchor.tx_count ≡ length bundle.entries)
    × All (IsGenuine toy ("1" ∷ "2" ∷ "4" ∷ []) genesis) bundle.entries
unfolding merkle_root next_level hash_node hash_leaf verify_block verify_merkle_proof join
    check_reveal content_commitment canonical_json sha256_hex oursay.Anchor.Verify.verify_entries
verify_block_sound_example =
    verify_block_sound toy toy-Lawful codec "1" ("2" ∷ "4" ∷ []) bundle one_hex refl refl refl

two_blocks :
    verify_chain toy codec (genesis ∷ second ∷ []) (some "canada") ≡ some (true, some zero_hex)
unfolding verify_chain verify_chain_link compute_chain_tip_hash sha256_hex canonical_hash
two_blocks = refl

verify_chain_iff_example :
    (verify_chain toy codec (genesis ∷ second ∷ []) (some "canada") ≡ some (true, some zero_hex))
    ↔ IsIntact toy codec genesis (second ∷ []) (some "canada") zero_hex
verify_chain_iff_example = verify_chain_iff toy codec genesis (second ∷ []) (some "canada") zero_hex

verify_chain-fold_tips_example : fold_tips toy none (one_hex ∷ one_hex ∷ []) ≡ some (some zero_hex)
verify_chain-fold_tips_example =
    verify_chain-fold_tips toy codec genesis (second ∷ []) (some "canada") two_blocks

verify_chain_binding_example :
    (map (root_bytes toy) (genesis ∷ second ∷ []) ≡ map (root_bytes toy) (genesis ∷ second ∷ []))
    ⊎ Collides toy
        (tip_inputs toy none (roots (genesis ∷ second ∷ [])))
        (tip_inputs toy none (roots (genesis ∷ second ∷ [])))
verify_chain_binding_example =
    verify_chain_binding toy codec toy-Lawful genesis genesis (second ∷ []) (second ∷ [])
      (some "canada") (some "canada") zero_hex refl two_blocks two_blocks
