-- ===== src/Relay/R2.antt =====
-- backend/internal/relay/r2.go, as far as it is not calls of the S3 client: the options of the client
-- and the public address of an object. The bucket itself is outside the model.
use xrestream.Base.{◌++◌, ◌∷◌, Text, codes}
use xrestream.Base.Trims.{trim_slashes}

-- The options that s3.New gets; the region and the path style are constants.
pub record S3Options : Type 0 where
  pub base_endpoint : Text
  pub access_key_id : Text
  pub secret_access_key : Text

pub record R2Client : Type 0 where
  pub client : S3Options
  pub bucket : Text
  pub public_base : Text

unfoldable pub new_r2_client : Text → Text → Text → Text → Text → R2Client
unfolding trim_slashes
new_r2_client account_id access_key_id secret_access_key bucket public_url = record {
  client = record {
    base_endpoint = codes "https://" ++ (account_id ++ codes ".r2.cloudflarestorage.com");
    access_key_id = access_key_id;
    secret_access_key = secret_access_key;
  };
  bucket = bucket;
  public_base = trim_slashes public_url;
}

unfoldable pub public_url : R2Client → Text → Text → Text
public_url r slug ref = r.public_base ++ (b'/' ∷ (slug ++ (b'/' ∷ ref)))
