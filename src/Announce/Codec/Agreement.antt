-- ===== src/Announce/Codec/Agreement.antt =====
-- The gossip plug-in reads the publisher, the name and the version out of a record by its own
-- offsets; the codec that the receiver uses reads the same.

use wgrd_mod_manager.Common.{◌≡◌, true, some, Bytes, ok}
use wgrd_mod_manager.Announce.Summary.{AnnounceSummary}
use wgrd_mod_manager.Announce.Wire.{record_summary}
use wgrd_mod_manager.Announce.Codec.RoundTrip.{part-length, part-taken, decode-Decodes}
use wgrd_mod_manager.Announce.Wire.Entries.{read_summary-of}
use wgrd_mod_manager.Announce.Codec.{SignedAnnounce, decode}

abbrev pub summary_of : SignedAnnounce → AnnounceSummary
summary_of a = record { publisher = a.publisher; mod_name = a.mod_name; version = a.version }

-- For every record that the codec accepts, the wire codec finds the same publisher, name and
-- version, so that a want is redeemed under the identifier that the receiver retains.
pub record_summary-decode :
    (r : Bytes) {a : SignedAnnounce} → decode r ≡ ok a → record_summary r ≡ some (summary_of a)
unfolding record_summary
record_summary-decode r {a} e =
    let d = decode-Decodes r e in
    let found =
      read_summary-of true r 12 20 84 (summary_of a) (part-taken 12 8 r d.published)
        (part-length 12 8 r d.published) d.named d.accepted d.versioned in
    rw d.size found
