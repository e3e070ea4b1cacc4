-- ===== src/Cursors.antt =====
-- The page cursors of services/checks_service.py and services/users_service.py: the URL-safe base64
-- of a UUID's text. `uuid` and `base64` are those of Python's standard library; of a decoded text
-- only ASCII is read, so that the digits of other scripts, which `int` takes too, are refused.
mod Base64
pub mod Uuids
mod Texts
pub mod RoundTrip
use prompt_patrol.Common.{ℕ, Bool, true, Option, none, some, List, [], ◌∷◌, Text, ltb}
use prompt_patrol.Models.{Uuid}
use prompt_patrol.Cursors.Base64.{urlsafe_b64encode, urlsafe_b64decode}
use prompt_patrol.Cursors.Uuids.{uuid_text, read_uuid}

abbrev pub and_then : {A B : Type 0} → Option A → (A → Option B) → Option B
and_then none f = none
and_then (some a) f = f a

-- `bytes.decode()`
unfoldable pub ascii : List ℕ → Option Text
ascii [] = some []
ascii (b ∷ bs) =
    let rest = ascii bs in elim (ltb b 128) [ true ↦ and_then rest (λ s. some (b ∷ s)) | _ ↦ none ]

unfoldable pub encode_cursor : Uuid → Text
encode_cursor i = urlsafe_b64encode (uuid_text i)

-- None is the `ValueError("Invalid cursor")`.
unfoldable pub decode_cursor : Text → Option Uuid
decode_cursor cursor =
    and_then (urlsafe_b64decode cursor) (λ bytes. and_then (ascii bytes) read_uuid)
