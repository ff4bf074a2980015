-- ===== src/Telegram/Photo.antt =====
-- chic/telegram/photo.py: the photo of a message as a data URI. What Telegram answers about the file
-- is in the message; `encode` is the base64 text of the bytes.
use chic_mcp.Prelude.{
  ℕ, ◌*◌, Bool, ◌&&◌, Option, none, some, List, [], ◌∷◌, String, ltb, ◌==◌, string_eq, nat_eq, not,
  length, if◌then◌else◌,
}
use Prim.Native.String.{◌++◌}

abbrev pub max_photo_bytes : ℕ
max_photo_bytes = 20971520

-- `PhotoSize`; no size is 0.
pub record PhotoSize : Type 0 where
  pub width : ℕ
  pub height : ℕ
  pub file_size : ℕ

-- What `get_file` and `download_file` answer for a size
pub record File : Type 0 where
  pub file_size : ℕ
  pub file_path : String
  pub content : List ℕ

pub data Photo : Type 0 where
  loaded : String → Photo
  too_large : Photo
  fails : Photo

-- `max(photos, key=...)`: the first of the largest
unfoldable pub largest : PhotoSize → List PhotoSize → PhotoSize
largest best [] = best
largest best (p ∷ ps) =
    largest (if ltb (best.width * best.height) (p.width * p.height) then p else best) ps

-- `size and size > MAX_PHOTO_BYTES`
is_over : ℕ → Bool
is_over size = not (size == 0) && ltb max_photo_bytes size

module _ (fetch : PhotoSize → Option File) (encode : List ℕ → String) where
  load_file : Option File → Photo
  unfolding is_over
  load_file none = fails
  load_file (some file) =
      if is_over file.file_size
      then too_large
      else if file.file_path == ""
      then fails
      else if ltb max_photo_bytes (length file.content)
      then too_large
      else loaded ("data:image/jpeg;base64," ++ encode file.content)

  -- `photo_data_uri`
  unfoldable pub photo_data_uri : List PhotoSize → Photo
  unfolding load_file
  photo_data_uri [] = fails
  photo_data_uri (p ∷ ps) =
      let best = largest p ps in
      if is_over best.file_size then too_large else load_file (fetch best)
