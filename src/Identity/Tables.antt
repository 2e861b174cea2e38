-- ===== src/Identity/Tables.antt =====
-- The tables of keys of public-record/src/private/store.ts, as the lists of their rows, and the
-- operations on them. `none` in place of a table is a thrown exception. The revocations and the
-- registrations that come again keep one row for each key.
use oursay.Base.{
  String, Bool, true, false, ◌&&◌, ◌||◌, Option, none, some, List, [], ◌∷◌, str_eq, if◌then◌else◌,
  ◌>>=◌,
}

pub record ThreadBindingRow : Type 0 where
  pub thread_pubkey : String
  pub thread_id : String
  pub jurisdiction : String
  pub kyc_tier : Option String
  pub commitment : String
  pub binding_sig : String

pub record ThreadKey : Type 0 where
  pub user_id : String
  pub thread_id : String
  pub jurisdiction : String
  pub pubkey : String
  pub persona_name : String

pub record DeviceKey : Type 0 where
  pub id : String
  pub user_id : String
  pub device_pubkey : String
  pub revoked : Bool

pub record ThreadSigner : Type 0 where
  pub signer_pubkey : String
  pub user_id : String
  pub device_id : String
  pub thread_id : String
  pub jurisdiction : String
  pub revoked : Bool

pub record ThreadCredential : Type 0 where
  pub credential_pubkey : String
  pub persona_pubkey : String
  pub user_id : String
  pub thread_id : String
  pub jurisdiction : String
  pub credential_sig : String
  pub revoked : Bool

pub record NullifierAttestation : Type 0 where
  pub user_id : String
  pub parent_id : String
  pub nullifier : String
  pub platform_sig : String

pub record Keys : Type 0 where
  pub thread_keys : List ThreadKey
  pub thread_bindings : List ThreadBindingRow
  pub device_keys : List DeviceKey
  pub thread_signers : List ThreadSigner
  pub credentials : List ThreadCredential
  pub nullifiers : List NullifierAttestation

-- The first row that a query finds.
abbrev pub find {ℓ} : {A : Type ℓ} → (A → Bool) → List A → Option A
find p [] = none
find p (x ∷ xs) = let rest = find p xs in if p x then some x else rest

-- `UPDATE ... WHERE`.
abbrev pub update_where {ℓ} : {A : Type ℓ} → (A → Bool) → (A → A) → List A → List A
update_where p f [] = []
update_where p f (x ∷ xs) = (if p x then f x else x) ∷ update_where p f xs

abbrev pub has {ℓ} : {A : Type ℓ} → (A → Bool) → List A → Bool
has p [] = false
has p (x ∷ xs) = p x || has p xs

-- `INSERT ... ON CONFLICT ... DO UPDATE`.
abbrev pub upsert {ℓ} : {A : Type ℓ} → (A → Bool) → A → List A → List A
upsert p row rows = if has p rows then update_where p (λ old. row) rows else row ∷ rows

unfoldable pub get_thread_binding : String → Keys → Option ThreadBindingRow
get_thread_binding pubkey k = find (λ b. str_eq b.thread_pubkey pubkey) k.thread_bindings

unfoldable pub get_thread_key : String → Keys → Option ThreadKey
get_thread_key pubkey k = find (λ t. str_eq t.pubkey pubkey) k.thread_keys

abbrev pub of_user_thread : String → String → ThreadKey → Bool
of_user_thread user_id thread_id t = str_eq t.user_id user_id && str_eq t.thread_id thread_id

pub get_thread_key_by_user_thread : String → String → Keys → Option String
get_thread_key_by_user_thread user_id thread_id k =
    find (of_user_thread user_id thread_id) k.thread_keys >>= (λ t. some t.pubkey)

-- `enrollDeviceKey`: the id of the row, which is `id` for a new one.
pub enroll_device_key : String → String → String → Keys → Keys × String
enroll_device_key id user_id device_pubkey k =
    let mine : DeviceKey → Bool = λ d. str_eq d.device_pubkey device_pubkey in
    elim (find mine k.device_keys) [
      | none ↦ (
        record k {
          device_keys =
              record { id = id; user_id = user_id; device_pubkey = device_pubkey; revoked = false }
              ∷ k.device_keys;
        },
        id,
      )
      | some d ↦ (
        record k {
          device_keys =
              update_where mine (λ e. record e { user_id = user_id; revoked = false })
                k.device_keys;
        },
        d.id,
      )
    ]

pub get_device_key_by_pubkey : String → Keys → Option DeviceKey
get_device_key_by_pubkey device_pubkey k =
    find (λ d. str_eq d.device_pubkey device_pubkey) k.device_keys

unfoldable pub revoke_device_key : String → Keys → Keys
revoke_device_key device_pubkey k = record k {
  device_keys =
      update_where (λ d. str_eq d.device_pubkey device_pubkey) (λ d. record d { revoked = true })
        k.device_keys;
}

-- `registerThreadSigner`; the foreign key demands the device.
pub register_thread_signer : ThreadSigner → Keys → Option Keys
register_thread_signer s k =
    if has (λ d. str_eq d.id s.device_id) k.device_keys
    then some (record k {
      thread_signers =
          upsert (λ t. str_eq t.signer_pubkey s.signer_pubkey) (record s { revoked = false })
            k.thread_signers;
    })
    else none

unfoldable pub revoke_thread_signer : String → Keys → Keys
revoke_thread_signer signer_pubkey k = record k {
  thread_signers =
      update_where (λ s. str_eq s.signer_pubkey signer_pubkey) (λ s. record s { revoked = true })
        k.thread_signers;
}

-- `getThreadSigner`: revoked with its device.
unfoldable pub get_thread_signer : String → Keys → Option ThreadSigner
get_thread_signer signer_pubkey k = do
  s ← find (λ s. str_eq s.signer_pubkey signer_pubkey) k.thread_signers
  d ← find (λ d. str_eq d.id s.device_id) k.device_keys
  some (record s { revoked = s.revoked || d.revoked })

-- `registerDeviceCredential`; the foreign key demands the persona.
pub register_device_credential : ThreadCredential → Keys → Option Keys
register_device_credential c k =
    if has (λ t. str_eq t.pubkey c.persona_pubkey) k.thread_keys
    then some (record k {
      credentials =
          upsert (λ d. str_eq d.credential_pubkey c.credential_pubkey)
            (record c { revoked = false }) k.credentials;
    })
    else none

unfoldable pub get_thread_credential : String → Keys → Option ThreadCredential
get_thread_credential credential_pubkey k =
    find (λ c. str_eq c.credential_pubkey credential_pubkey) k.credentials

unfoldable pub revoke_thread_credential : String → Keys → Keys
revoke_thread_credential credential_pubkey k = record k {
  credentials =
      update_where (λ c. str_eq c.credential_pubkey credential_pubkey)
        (λ c. record c { revoked = true }) k.credentials;
}

abbrev pub attests : String → String → NullifierAttestation → Bool
attests user_id parent_id n = str_eq n.user_id user_id && str_eq n.parent_id parent_id

abbrev pub bears : String → String → NullifierAttestation → Bool
bears parent_id nullifier n = str_eq n.parent_id parent_id && str_eq n.nullifier nullifier

unfoldable pub get_attested_nullifier : String → String → Keys → Option String
get_attested_nullifier user_id parent_id k =
    find (attests user_id parent_id) k.nullifiers >>= (λ n. some n.nullifier)

unfoldable pub get_user_by_nullifier : String → String → Keys → Option String
get_user_by_nullifier parent_id nullifier k =
    find (bears parent_id nullifier) k.nullifiers >>= (λ n. some n.user_id)

-- `attestNullifier`: the first attestation of a user and a parent stands; a nullifier that another
-- user has on the parent violates the constraint of the table.
unfoldable pub attest_nullifier : NullifierAttestation → Keys → Option Keys
attest_nullifier row k =
    if has (attests row.user_id row.parent_id) k.nullifiers
    then some k
    else if has (bears row.parent_id row.nullifier) k.nullifiers
    then none
    else some (record k { nullifiers = row ∷ k.nullifiers })
