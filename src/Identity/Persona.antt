-- ===== src/Identity/Persona.antt =====
-- `ensureThreadPersona` of public-record/src/private/store.ts: one persona for each user and
-- thread. `none` is a thrown exception, after which the database transaction is rolled back. The
-- name of the persona, which `freePersonaName` finds, is an argument. A join at the same time is
-- not modelled, so the insertion of the key meets no row of the user and thread.
pub mod Shared
use oursay.Base.{
  String, Bool, true, false, not, ◌&&◌, ◌||◌, Option, none, some, List, [], ◌∷◌, all, str_eq,
  if◌then◌else◌, ◌>>=◌,
}
use oursay.Identity.Tables.{
  ThreadKey, ThreadBindingRow, Keys, find, has, upsert, of_user_thread, get_thread_binding,
}

pub record Join : Type 0 where
  pub user_id : String
  pub thread_id : String
  pub jurisdiction : String
  pub proposed_pubkey : String
  pub commitment : String
  pub kyc_tier : Option String
  pub persona_name : String

abbrev pub join_key : Join → ThreadKey
join_key j = record {
  user_id = j.user_id;
  thread_id = j.thread_id;
  jurisdiction = j.jurisdiction;
  pubkey = j.proposed_pubkey;
  persona_name = j.persona_name;
}

abbrev pub join_binding : Join → String → ThreadBindingRow
join_binding j sig = record {
  thread_pubkey = j.proposed_pubkey;
  thread_id = j.thread_id;
  jurisdiction = j.jurisdiction;
  kyc_tier = j.kyc_tier;
  commitment = j.commitment;
  binding_sig = sig;
}

-- The commitment that is bound under a persona, if any, is the one that comes in.
abbrev pub commitment_agrees : String → Option ThreadBindingRow → Bool
commitment_agrees commitment none = true
commitment_agrees commitment (some b) = str_eq b.commitment commitment

-- The branch of a user who has a persona in the thread.
unfoldable pub returning : Join → ThreadKey → Keys → Option (Keys × String)
returning j t k =
    if str_eq t.jurisdiction j.jurisdiction
      && commitment_agrees j.commitment (get_thread_binding t.pubkey k)
    then some (k, t.pubkey)
    else none

-- A row of the thread has the jurisdiction of the join.
abbrev pub peer_agrees : Join → ThreadKey → Bool
peer_agrees j t = not (str_eq t.thread_id j.thread_id) || str_eq t.jurisdiction j.jurisdiction

-- The jurisdictions of the thread are none but that of the join, and its key and name are new.
abbrev pub may_join : Join → Keys → Bool
may_join j k =
    all (peer_agrees j) k.thread_keys
    && not (
        has (λ t. str_eq t.pubkey j.proposed_pubkey || str_eq t.persona_name j.persona_name)
          k.thread_keys)

abbrev pub of_pubkey : String → ThreadBindingRow → Bool
of_pubkey pubkey b = str_eq b.thread_pubkey pubkey

abbrev pub joined : Join → String → Keys → Keys
joined j sig k = record k {
  thread_keys = join_key j ∷ k.thread_keys;
  thread_bindings = upsert (of_pubkey j.proposed_pubkey) (join_binding j sig) k.thread_bindings;
}

-- The branch of a first join; `sign_binding` signs the binding of the persona.
unfoldable pub first_join : (String → Option String) → Join → Keys → Option (Keys × String)
first_join sign_binding j k =
    if may_join j k
    then (sign_binding j.proposed_pubkey >>= (λ sig. some (joined j sig k, j.proposed_pubkey)))
    else none

-- The tables after the call, and the persona of the user in the thread.
unfoldable pub ensure_thread_persona :
    (String → Option String) → Join → Keys → Option (Keys × String)
ensure_thread_persona sign_binding j k =
    elim (find (of_user_thread j.user_id j.thread_id) k.thread_keys) [
      | some t ↦ returning j t k
      | none ↦ first_join sign_binding j k
    ]
