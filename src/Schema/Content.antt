-- ===== src/Schema/Content.antt =====
-- `validateContent` of public-record/src/schema/content.ts with the caps of
-- content-limits/src/index.ts. `true`: it returns; `false`: it throws.
pub mod PlatformOps
use Prim.Native.Char.{code}
use oursay.Base.{
  ℕ, suc, ◌+◌, String, Bool, true, false, not, ◌&&◌, ◌||◌, Option, none, some, leb, ltb, ◌==◌,
  str_eq, if◌then◌else◌, List, [], ◌∷◌,
}
use oursay.Crypto.Hash.{Hasher}
use oursay.Crypto.Canonical.{
  Json, Items, Members, str, num, obj, arr, item, end, close, get_member, Codec,
}
use oursay.Schema.Types.{
  RecordType, civic, platform_ops, Op, delete, comment, post, petition, poll, result, GatedAction,
}
use oursay.Policy.Jurisdiction.{
  ContentLimits, TextCaps, PetitionCaps, PollCaps, Registry, get_jurisdiction,
}
use oursay.Policy.Governance.{or_default}
use oursay.Schema.Content.PlatformOps.{validate_platform_ops}

-- `text.length`: a character beyond the first plane counts as two.
abbrev pub utf16_length : String → ℕ
utf16_length String.[] = 0
utf16_length (String.◌∷◌ c s) = (if leb 65536 (code c) then 2 else 1) + utf16_length s

-- `DEFAULT_CONTENT_LIMITS`, and its members.
abbrev pub default_post : TextCaps
default_post = record { title = some 200; body = some 2000 }

abbrev pub default_comment : Option ℕ
default_comment = some 2000

abbrev pub default_petition : PetitionCaps
default_petition = record { title = some 200; text = some 5000 }

abbrev pub default_poll : PollCaps
default_poll = record {
  question = some 200;
  option = some 100;
  max_options = some 10;
  description = some 2000;
}

abbrev pub default_content_limits : ContentLimits
default_content_limits = record {
  post = some default_post;
  comment = some default_comment;
  petition = some default_petition;
  poll = some default_poll;
}

-- `!(cap != null && n > cap)`.
abbrev pub within : Option ℕ → ℕ → Bool
within none n = true
within (some cap) n = leb n cap

-- A text that is required: it is no blank, and within the cap.
abbrev pub required_text : Option ℕ → Option Json → Bool
required_text cap (some (str s)) = not (PlatformOps.is_blank s) && within cap (utf16_length s)
required_text cap _ = false

-- A text that may be absent.
abbrev pub optional_text : Option ℕ → Option Json → Bool
optional_text cap none = true
optional_text cap (some (str s)) = within cap (utf16_length s)
optional_text cap (some _) = false

abbrev pub count_items : Items → ℕ
count_items end = 0
count_items (item x xs) = suc (count_items xs)

abbrev pub all_options : Option ℕ → Items → Bool
all_options cap end = true
all_options cap (item (str s) xs) = within cap (utf16_length s) && all_options cap xs
all_options cap (item _ xs) = false

-- The options of a poll: a list of texts that is not empty.
abbrev pub options_ok : PollCaps → Option Json → Bool
options_ok caps (some (arr xs)) =
    let n = count_items xs in
    not (n == 0) && (within caps.max_options n && all_options caps.option xs)
options_ok caps _ = false

-- `(content ?? {}) as { ... }`: what is no object has no members.
abbrev pub members_of : Json → Members
members_of (obj ms) = ms
members_of _ = close

abbrev pub is_text : Option Json → Bool
is_text (some (str s)) = true
is_text _ = false

abbrev pub is_number : Option Json → Bool
is_number (some (num n)) = true
is_number _ = false

abbrev pub all_tallies : Items → Bool
all_tallies end = true
all_tallies (item row xs) =
    is_text (get_member "option" (members_of row))
    && (is_number (get_member "count" (members_of row)) && all_tallies xs)

abbrev pub tallies_ok : Option Json → Bool
tallies_ok none = true
tallies_ok (some (arr xs)) = all_tallies xs
tallies_ok (some _) = false

abbrev pub prose_ok : TextCaps → Members → Bool
prose_ok caps c =
    required_text caps.title (get_member "title" c) && optional_text caps.body (get_member "body" c)

-- The branches of the types that citizens write.
pub validate_civic : GatedAction → ContentLimits → Members → Bool
validate_civic post limits c = prose_ok (or_default limits.post default_post) c
validate_civic comment limits c =
    required_text (or_default limits.comment default_comment) (get_member "body" c)
validate_civic petition limits c =
    let caps = or_default limits.petition default_petition in
    required_text caps.title (get_member "title" c) && required_text caps.text (get_member "text" c)
validate_civic poll limits c =
    let caps = or_default limits.poll default_poll in
    required_text caps.question (get_member "question" c)
    && (options_ok caps (get_member "options" c)
        && optional_text caps.description (get_member "description" c))
validate_civic result limits c =
    prose_ok (or_default limits.post default_post) c
    && ((is_text (get_member "sourcePollId" c) || not (PlatformOps.present "sourcePollId" c))
        && tallies_ok (get_member "tallies" c))
validate_civic GatedAction.reaction limits c = true
validate_civic GatedAction.vote limits c = true
validate_civic GatedAction.petition_signature limits c = true

abbrev pub is_delete : Op → Bool
is_delete delete = true
is_delete _ = false

module _ (h : Hasher) (codec : Codec) (date_parse : String → Option ℕ) where
  abbrev pub validate_type : RecordType → Option String → Registry → Members → Bool
  unfolding validate_civic
  validate_type platform_ops id r c = validate_platform_ops h codec date_parse c
  validate_type (civic a) id r c =
      validate_civic a (or_default (get_jurisdiction id r).content_limits default_content_limits) c

  unfoldable pub validate_content : RecordType → Op → Json → Option String → Registry → Bool
  unfolding validate_civic
  validate_content t op content id r = is_delete op || validate_type t id r (members_of content)
