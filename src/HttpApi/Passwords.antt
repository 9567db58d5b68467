-- ===== src/HttpApi/Passwords.antt =====
-- hashPassword and verifyPassword of backend/internal/httpapi/admin.go.
use xrestream.Base.{if◌then◌else◌, ◌||◌, Bool, Text, codes, false, is_empty, length, ltb, text_eq}
use xrestream.Base.Results.{Result, err, message}

-- bcrypt: GenerateFromPassword, with the salt that it draws, and CompareHashAndPassword.
pub record Bcrypt : Type 0 where
  pub generate : Text → Result Text
  pub compare_hash : Text → Text → Bool

unfoldable pub hash_password : Bcrypt → Text → Result Text
hash_password b plain =
    if ltb (length plain) 6
    then err (message (codes "password must be at least 6 characters"))
    else b.generate plain

unfoldable pub verify_password : Bcrypt → Text → Text → Bool
verify_password b hash plain =
    if is_empty hash || is_empty plain then false else b.compare_hash hash plain
