-- ===== src/Storage/Adapter.antt =====
-- src/storage/storage.interface.ts: what the code calls of a storage backend. The adapters behind
-- it call services and a file system, so a backend is a parameter: operations on a store of its
-- own, that may fail, with the contents that a reader of the store finds at each key. An upload is
-- one without metadata, as all those of the recycle bin are.
use dbdock.Base.{ℕ, Text, codes, Bool, ◌≡◌, ◌≢◌, Option, none, some, List, ◌++◌}
use dbdock.Base.Effect.{Effect, ok}

pub record StorageObject : Type 0 where
  pub key : Text
  pub size : ℕ
  pub last_modified : ℕ

pub record StorageAdapter : Type 1 where
  pub Store : Type 0
  pub Failure : Type 0
  pub Content : Type 0
  pub upload : Text → Content → Effect Failure Store Unit
  pub download : Text → Effect Failure Store Content
  pub list : Text → Effect Failure Store (List StorageObject)
  pub delete : Text → Effect Failure Store Unit
  pub exists : Text → Effect Failure Store Bool
  -- `copyObject?` is optional.
  pub copy : Option (Text → Text → Effect Failure Store Unit)
  pub content : Store → Text → Option Content

-- `getMetadataPath` of src/storage/adapters/local.adapter.ts keeps the metadata beside the object.
abbrev pub object_metadata_suffix : Text
object_metadata_suffix = codes ".metadata.json"

-- A key that a deletion of `k` spares: neither `k` nor the key of its metadata.
pub record IsSpared (j k : Text) : Type 0 where
  pub not_it : j ≢ k
  pub not_metadata : j ≢ k ++ object_metadata_suffix

module _ (a : StorageAdapter) where
  open a use {Store, Failure, Content, upload, download, list, delete, content}

  -- What the backends promise: an operation changes no key but the one that it writes, reads change
  -- nothing, and where it succeeds it has done what it says. A deletion may take the object's
  -- metadata with it, as `deleteObject` of the local adapter does.
  pub record IsObjectStore : Type 0 where
    pub upload_ok :
        (k : Text) (c : Content) (s : Store) {s' : Store}
        → upload k c s ≡ (ok tt, s')
        → content s' k ≡ some c
    pub upload_other :
        (k j : Text) (c : Content) (s : Store) → j ≢ k → content (upload k c s).1 j ≡ content s j
    pub download_same : (k j : Text) (s : Store) → content (download k s).1 j ≡ content s j
    pub download_ok :
        (k : Text) (s : Store) {c : Content} {s' : Store}
        → download k s ≡ (ok c, s')
        → content s k ≡ some c
    pub list_same : (p j : Text) (s : Store) → content (list p s).1 j ≡ content s j
    pub delete_ok :
        (k : Text) (s : Store) {s' : Store} → delete k s ≡ (ok tt, s') → content s' k ≡ none
    pub delete_other :
        (k j : Text) (s : Store) → IsSpared j k → content (delete k s).1 j ≡ content s j
    pub copy_ok :
        (f : Text → Text → Effect Failure Store Unit) (src dst : Text) (s : Store) {s' : Store}
        → a.copy ≡ some f
        → f src dst s ≡ (ok tt, s')
        → content s' dst ≡ content s src
    pub copy_other :
        (f : Text → Text → Effect Failure Store Unit) (src dst j : Text) (s : Store)
        → a.copy ≡ some f
        → j ≢ dst
        → content (f src dst s).1 j ≡ content s j
