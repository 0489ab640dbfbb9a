-- ===== src/Headers/Total.antt =====
-- Operations on header fields that cannot fail.
use doormat.Base.{◌≡◌, refl, Bool, some, bytes_eq}
use doormat.Headers.Number.{stoull}
use doormat.Headers.{StructuredData, make, keep, header, header_lower, set_length}

-- The connection field can always be set, and so can the fields of a new message.
pub keep_total : (d : StructuredData) (b : Bool) → (e : StructuredData) × (keep d b ≡ some e)
unfolding keep header header_lower bytes_eq
keep_total d b = (_, refl)

pub make_total : (d : StructuredData) × (make ≡ some d)
unfolding make header header_lower set_length stoull bytes_eq
make_total = (_, refl)
