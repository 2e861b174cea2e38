-- ===== src/Anchor/Publish.antt =====
-- `AnchorPublisher` of public-record/src/anchor/publisher.ts over a file target, anchor/file.target.ts
-- with the policy of anchor/target.ts. `none` is a thrown exception.
pub mod Mirror
pub mod Gather
pub mod Complete
pub mod Audited
mod Examples
use oursay.Base.{
  ℕ, zero, suc, ◌+◌, ◌-◌, String, Bool, true, false, not, ◌&&◌, Option, none, some, List, [], ◌∷◌,
  map, length, rev_append, ltb, leb, ◌==◌, str_eq, if◌then◌else◌, ◌>>=◌,
}
use oursay.Crypto.Hash.{Hasher}
use oursay.Crypto.Canonical.{Codec}
use oursay.Anchor.Record.{AnchorRecord, BlockHeader, BlockBundle}
use oursay.Anchor.Assemble.{header_only_bundle, assemble}
use oursay.Ledger.Store.{Store}
use oursay.Ledger.Connector.{Ledger, fetch_latest_block, fetch_block_by_height}

-- `FileAnchorTarget`: its cadence, the bundles on it, newest first, each an anchor line with its
-- block file, and the publish cursor that the private store keeps for it (0: none).
pub record Target : Type 0 where
  pub every_n : ℕ
  pub bundles : List BlockBundle
  pub cursor : ℕ

-- `headerOnly`, which a file target leaves out, and `publicWitness`, which is false of it.
abbrev pub header_only : Target → Bool
header_only t = false

abbrev pub public_witness : Target → Bool
public_witness t = false

abbrev pub newest_anchor : List BlockBundle → Option AnchorRecord
newest_anchor [] = none
newest_anchor (b ∷ rest) = some b.anchor

abbrev pub anchor_height : Option AnchorRecord → ℕ
anchor_height none = 0
anchor_height (some a) = a.block_height

abbrev pub anchor_to_seq : Option AnchorRecord → ℕ
anchor_to_seq none = 0
anchor_to_seq (some a) = a.to_seq

-- The heights of the lines are 1, 2, ...
pub contiguous : List BlockBundle → Bool
contiguous [] = true
contiguous (b ∷ rest) = (b.anchor.block_height == suc (length rest)) && contiguous rest

-- The anchors of a target that is not corrupt.
pub read_anchors : List BlockBundle → Option (List BlockBundle)
unfolding contiguous
read_anchors bundles = if contiguous bundles then some bundles else none

pub fetch_latest_anchor : Target → Option (Option AnchorRecord)
unfolding read_anchors
fetch_latest_anchor t = do bundles ← read_anchors t.bundles; some (newest_anchor bundles)

-- The heights of the lines differ, so the order in which they are searched is no matter.
pub find_anchor : ℕ → List BlockBundle → Option AnchorRecord
find_anchor height [] = none
find_anchor height (b ∷ rest) =
    let rest' = find_anchor height rest in
    if b.anchor.block_height == height then some b.anchor else rest'

pub fetch_anchor : ℕ → Target → Option (Option AnchorRecord)
unfolding find_anchor
fetch_anchor height t = do bundles ← read_anchors t.bundles; some (find_anchor height bundles)

-- All published anchors, by height.
pub list_anchors : Target → Option (List AnchorRecord)
list_anchors t = do
  bundles ← read_anchors t.bundles
  some (rev_append (map (λ b. b.anchor) bundles) [])

-- `FileAnchorTarget.publish`.
pub publish_bundle : BlockBundle → Target → Option Target
publish_bundle b t = do
  bundles ← read_anchors t.bundles
  let latest = newest_anchor bundles
  if not (b.anchor.block_height == anchor_height latest + 1)
      then none
      else (if not (b.anchor.from_seq == anchor_to_seq latest)
          then none
          else some (record t { bundles = b ∷ bundles }))

-- The target after the bundles up to the first that is refused, and whether all were published.
pub publish_bundles : List BlockBundle → Target → Target × Bool
unfolding publish_bundle
publish_bundles [] t = (t, true)
publish_bundles (b ∷ rest) t = elim (publish_bundle b t) [
  | none ↦ (t, false)
  | some t' ↦ publish_bundles rest t'
]

-- `everyNBlocks(n).shouldPublish`, where the latest height is not below the last one.
pub should_publish : ℕ → ℕ → ℕ → Bool
should_publish n latest last = leb (if ltb n 1 then 1 else n) (latest - last)

abbrev pub last_height : ℕ → List ℕ → ℕ
last_height h [] = h
last_height h (k ∷ rest) = last_height k rest

-- `recordPublicWitnessTip`: the cursor moves forward only.
pub record_public_witness_tip : List ℕ → Target → Target
record_public_witness_tip [] t = t
record_public_witness_tip (h ∷ rest) t =
    let tip = last_height h rest in
    if public_witness t then record t { cursor = if ltb t.cursor tip then tip else t.cursor } else t

module _ (h : Hasher) (c : Codec) (chain_id : String) where
  abbrev pub same_root : Option BlockHeader → Option AnchorRecord → Bool
  same_root (some b) (some a) = str_eq a.bundle_merkle_root b.bundle_merkle_root
  same_root _ _ = false

  -- Whether `assertTipIntegrity` returns.
  pub tip_intact : Ledger → Target → ℕ → Bool
  tip_intact l t zero = true
  tip_intact l t (suc n) = elim (fetch_anchor (suc n) t) [
    | none ↦ false
    | some anchor ↦ same_root (fetch_block_by_height chain_id (suc n) l) anchor
  ]

  pub bundle_for : Store → Bool → BlockHeader → Option AnchorRecord → Option BlockBundle
  bundle_for s header_only b prev =
      if header_only then some (header_only_bundle h c b prev) else assemble h c b prev true s

  -- The loop of `publish` over `count` heights from `height` on.
  pub gather : Ledger → Store → Bool → ℕ → ℕ → Option AnchorRecord → Option (List BlockBundle)
  unfolding bundle_for
  gather l s header_only zero height prev = some []
  gather l s header_only (suc count) height prev = do
    header ← fetch_block_by_height chain_id height l
    bundle ← bundle_for s header_only header prev
    rest ← gather l s header_only count (suc height) (some bundle.anchor)
    some (bundle ∷ rest)

  -- The target after a call, and the heights that it returns, or `none` where it throws.
  abbrev pub deliver : Option (List BlockBundle) → Target → Target × Option (List ℕ)
  deliver none t = (t, none)
  deliver (some []) t = (t, some [])
  deliver (some (b ∷ rest)) t =
      let heights = map (λ x. x.anchor.block_height) (b ∷ rest) in
      let (t', all_published) = publish_bundles (b ∷ rest) t in
      if all_published then (record_public_witness_tip heights t', some heights) else (t', none)

  abbrev pub publish_from :
      Option BlockHeader
      → Option (Option AnchorRecord)
      → Ledger
      → Store
      → Target
      → Target × Option (List ℕ)
  publish_from none prev l s t = (t, some [])
  publish_from (some latest) none l s t = (t, none)
  publish_from (some latest) (some prev) l s t =
      let last = anchor_height prev in
      let bundles = gather l s (header_only t) (latest.block_height - last) (suc last) prev in
      if tip_intact l t last then deliver bundles t else (t, none)

  pub publish : Ledger → Store → Target → Target × Option (List ℕ)
  unfolding gather tip_intact
  publish l s t = publish_from (fetch_latest_block chain_id l) (fetch_latest_anchor t) l s t

  abbrev pub maybe_from :
      Option BlockHeader
      → Option (Option AnchorRecord)
      → Ledger
      → Store
      → Target
      → Target × Option (List ℕ)
  maybe_from none prev l s t = (t, some [])
  maybe_from (some latest) none l s t = (t, none)
  maybe_from (some latest) (some prev) l s t =
      let last = anchor_height prev in
      if leb latest.block_height last
      then (t, some [])
      else if not (should_publish t.every_n latest.block_height last)
      then (t, some [])
      else publish l s t

  pub maybe_publish : Ledger → Store → Target → Target × Option (List ℕ)
  maybe_publish l s t = maybe_from (fetch_latest_block chain_id l) (fetch_latest_anchor t) l s t

  -- `catchUp` makes the test of the tip before it calls `publish`, which makes it again.
  abbrev pub catch_up_from :
      Option BlockHeader
      → Option (Option AnchorRecord)
      → Ledger
      → Store
      → Target
      → Target × Option (List ℕ)
  catch_up_from none prev l s t = (t, some [])
  catch_up_from (some latest) none l s t = (t, none)
  catch_up_from (some latest) (some prev) l s t =
      if tip_intact l t (anchor_height prev) then publish l s t else (t, none)

  pub catch_up : Ledger → Store → Target → Target × Option (List ℕ)
  catch_up l s t = catch_up_from (fetch_latest_block chain_id l) (fetch_latest_anchor t) l s t
