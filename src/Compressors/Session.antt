-- ===== src/Compressors/Session.antt =====
-- What a session begins with.
use shatter_nc.Prelude.{ℕ, ◌≡◌, refl, Bool, true, false, nat_beq, arith}
use shatter_nc.Prelude.Tests.{nat_eq, ==_refl}
use shatter_nc.Prelude.Text.{Text, text_beq, text_eq, trim}
use shatter_nc.Compressors.{
  Compressor, CompressorCard, interval_of, is_enabled, text_of, same_bool, open_session,
  has_unsaved_changes,
}

text_beq_refl : (s : Text) → text_beq s s ≡ true
text_beq_refl s = ==_refl s

same_bool_refl : (b : Bool) → same_bool b b ≡ true
same_bool_refl true = refl
same_bool_refl false = refl

nat_beq_refl : (n : ℕ) → nat_beq n n ≡ true
nat_beq_refl n = ground arith

-- A session that begins has nothing to save.
pub open_session-clean :
    (compressor : Compressor) (card : CompressorCard)
    → has_unsaved_changes compressor (open_session true compressor card) ≡ false
unfolding has_unsaved_changes open_session trim
open_session-clean compressor card =
    rw
      (
        text_beq_refl compressor.compressor_name,
        text_beq_refl compressor.ip_address,
        nat_beq_refl (interval_of compressor.poll_interval_seconds),
        same_bool_refl (is_enabled compressor.enabled),
        text_beq_refl (trim (text_of compressor.kaeser_connect_base_url)),
        text_beq_refl (trim (text_of compressor.kaeser_username)),
      )
      refl
