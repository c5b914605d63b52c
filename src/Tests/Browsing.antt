-- ===== src/Tests/Browsing.antt =====
-- Lists and statistics of the small history.
use fingerprint_hub.Store.Browse as browse
use fingerprint_hub.Store.Effects.Statistics.{IsAccurate, stats-IsAccurate}
use fingerprint_hub.Tests.Data.{sample}

stats-IsAccurate_example : IsAccurate sample (browse.stats sample)
stats-IsAccurate_example = stats-IsAccurate sample
