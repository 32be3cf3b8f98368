-- ===== src/Treeqs/Size.antt =====
-- The size of a file system whose treeq grows.
use infinibox_csi_driver.Prelude.{ℕ, ◌≡◌, ◌+◌, ◌-◌, ◌^◌, ◌<◌, ◌≤◌, arith}
use infinibox_csi_driver.Prelude.Int.{pos, ◌+ℤ◌, ◌-ℤ◌}
use infinibox_csi_driver.Treeqs.{grown_size}

-- If a treeq of a file system grows, and the size of the file system, the treeqs' sum and their sum
-- afterwards are below 2^62, then the size that UpdateTreeqVolume gives the file system is the sum of
-- its treeqs' capacities after the change, whatever size it had.
pub grown_size_exact :
    (size total hard capacity : ℕ)
    → size < 2 ^ 62
    → total < 2 ^ 62
    → hard ≤ total
    → hard ≤ capacity
    → total - hard + capacity < 2 ^ 62
    → grown_size (pos size) (pos total) (pos capacity -ℤ pos hard) ≡ pos (total - hard + capacity)
unfolding grown_size ◌+ℤ◌ ◌-ℤ◌
grown_size_exact size total hard capacity s t h c f = ground arith
