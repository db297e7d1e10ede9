-- ===== src/Common/Storage.antt =====
-- app/common/storage.py: the protocol `ObjectStorage`, whose backends are outside of the program, and
-- the in-memory backend.
use Prim.Native.String.{◌++◌ as str_append}
use vyapar_ai.Prelude.{ℕ, String, none, some, List}
use vyapar_ai.Common.Error.{storage_error}
use vyapar_ai.Common.Dict.{Dict, lookup, set}
use vyapar_ai.Common.Result.{Result, ok, err}

-- Python's `bytes`.
abbrev pub Bytes : Type 0
Bytes = List ℕ

pub record ObjectStorage : Type 0 where
  -- key, content, content type; returns a URL
  pub put : String → Bytes → String → Result String
  pub get : String → Result Bytes

-- `InMemoryStorage`: the bucket and the dictionary `_objects`.
pub record InMemoryStorage : Type 0 where
  pub bucket : String
  pub objects : Dict Bytes

unfoldable pub url_for : InMemoryStorage → String → String
url_for storage key = str_append "memory://" (str_append storage.bucket (str_append "/" key))

-- `self._objects[key] = content`
unfoldable pub put : InMemoryStorage → String → Bytes → String → String × InMemoryStorage
unfolding url_for set
put storage key content content_type =
    (url_for storage key, record storage { objects = set key content storage.objects })

unfoldable pub get : InMemoryStorage → String → Result Bytes
unfolding lookup
get storage key = elim (lookup key storage.objects) [
  | none ↦ err (storage_error "KeyError")
  | some content ↦ ok content
]
