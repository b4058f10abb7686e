-- ===== src/Storage/ChunkLocator/Registered.antt =====
-- What `Register` leaves to be found.
use wgrd_mod_manager.Common.{◌^◌, ◌<◌}
use wgrd_mod_manager.Domain.Manifest.{ManifestChunk}
use wgrd_mod_manager.Storage.ChunkLocator.{ChunkLocator}

-- the chunk's length is of 32 bits, as its type says
abbrev pub IsShort : ManifestChunk → Type 0
IsShort c = c.length < 2 ^ 32
