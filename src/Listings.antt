-- ===== src/Listings.antt =====
-- pearlarr/coverage.py and pearlarr/listing_fold.py: the text of the episodes that a release covers, and
-- what the SeaDex entries of a series say of each torrent.
pub mod Coverage
pub mod Ranges
pub mod Fold
mod Tests
