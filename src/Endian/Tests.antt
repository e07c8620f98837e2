-- ===== src/Endian/Tests.antt =====
-- A swapped number.
use custom_net_framework.Prelude.{◌<◌, ◌≡◌}
use custom_net_framework.Endian.{to_bytes, byteswap, byteswap_lem, reverse, range}

byteswap_lem_example :
    (byteswap 4 2130706433 < range 4)
    × (to_bytes 4 (byteswap 4 2130706433) ≡ reverse (to_bytes 4 2130706433))
    × (2130706433 < range 4 → byteswap 4 (byteswap 4 2130706433) ≡ 2130706433)
byteswap_lem_example = byteswap_lem 4 2130706433
