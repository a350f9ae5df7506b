-- ===== src/Dataflash/Tests.antt =====
-- The length that the source asserts of its preamble.
use boredom_os.Prelude.{◌≡◌, refl, length}
use boredom_os.Dataflash.{preamble}

-- `static_assert(sizeof(kPreamble) == 356)`.
preamble_length : length preamble ≡ 356
preamble_length = refl
