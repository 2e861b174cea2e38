-- ===== src/Crypto/Canonical.antt =====
-- public-record/src/crypto/commitment.ts: canonical JSON, and the commitments over it.
pub mod Binding
use oursay.Base.{ℕ, String, Bool, Option, none, some, List, [], ◌∷◌, ◌++◌, str_eq, if◌then◌else◌}
use oursay.Crypto.Hash.{Hasher, sha256_hex}

-- JSON values; an object is the list of its members, in the order in which they were set. Numbers
-- are natural numbers.
mutual
  pub data Json : Type 0 where
    null : Json
    bool : Bool → Json
    num : ℕ → Json
    str : String → Json
    arr : Items → Json
    obj : Members → Json

  pub data Items : Type 0 where
    end : Items
    item : Json → Items → Items

  pub data Members : Type 0 where
    close : Members
    member : String → Json → Members → Members

-- `JSON.stringify`, `JSON.parse` (`none`: it throws) and the order of `Array.prototype.sort`.
pub record Codec : Type 0 where
  pub stringify : Json → String
  pub parse : String → Option Json
  pub key_le : String → String → Bool

-- `value[key]`: an absent key is `undefined`.
abbrev pub get_member : String → Members → Option Json
get_member key close = none
get_member key (member k v rest) = if str_eq k key then some v else get_member key rest

-- `Option` is `undefined`: `JSON.stringify` leaves such a member out.
abbrev pub optional : String → Option Json → Members → Members
optional key none rest = rest
optional key (some v) rest = member key v rest

abbrev pub or_null : Option String → Json
or_null none = null
or_null (some s) = str s

module _ (c : Codec) where
  -- One step of an insertion sort of the members by key.
  pub insert_member : String → Json → Members → Members
  insert_member k v close = member k v close
  insert_member k v (member j w rest) =
      if c.key_le k j then member k v (member j w rest) else member j w (insert_member k v rest)

  mutual
    unfolding insert_member

    pub sort_deep : Json → Json
    sort_deep (arr xs) = arr (sort_items xs)
    sort_deep (obj ms) = obj (sort_members ms)
    sort_deep null = null
    sort_deep (bool b) = bool b
    sort_deep (num n) = num n
    sort_deep (str s) = str s

    pub sort_items : Items → Items
    sort_items end = end
    sort_items (item x xs) = item (sort_deep x) (sort_items xs)

    pub sort_members : Members → Members
    sort_members close = close
    sort_members (member k v rest) = insert_member k (sort_deep v) (sort_members rest)

  unfoldable pub canonical_json : Json → String
  unfolding sort_deep
  canonical_json value = c.stringify (sort_deep value)

module _ (h : Hasher) (c : Codec) where
  unfoldable pub canonical_hash : Json → String
  unfolding canonical_json
  canonical_hash value = sha256_hex h (h.utf8 (canonical_json c value))

  -- `contentCommitment`; an `id` that is `undefined` is left out of the object.
  unfoldable pub content_commitment : Option Json → String → Json → String
  unfolding canonical_hash
  content_commitment id salt content = canonical_hash (
      obj (
        member "ds" (str "oursay/v1/content")
          (optional "id" id (member "salt" (str salt) (member "content" content close)))))

  pub thread_commitment : String → String → String → String → String
  unfolding canonical_hash
  thread_commitment user_id salt_t thread_id jurisdiction = canonical_hash (
      obj (
        member "ds" (str "oursay/v1/thread-commitment") (
          member "user_id" (str user_id) (
            member "salt_t" (str salt_t) (
              member "thread_id" (str thread_id)
                (member "jurisdiction" (str jurisdiction) close))))))
