-- ===== src/Tests/Codecs.antt =====
-- The codecs.

use wgrd_mod_manager.Common.{◌≡◌, some, ok}
use wgrd_mod_manager.Tests.Data.{
  announce, announce-IsAnnounce, announce_record, announce_record-decode,
}
use wgrd_mod_manager.Announce.Wire.{record_summary}
use wgrd_mod_manager.Announce.Codec.{encode, decode}
use wgrd_mod_manager.Announce.Codec.RoundTrip.{decode-encode}
use wgrd_mod_manager.Announce.Codec.Agreement.{summary_of, record_summary-decode}

decode-encode_example : decode (encode announce) ≡ ok announce
decode-encode_example = decode-encode announce announce-IsAnnounce

record_summary-decode_example : record_summary announce_record ≡ some (summary_of announce)
record_summary-decode_example = record_summary-decode announce_record announce_record-decode
