-- ===== src/FsCache/Tests.antt =====
-- Runs of the file cache on an empty one.
use balrog_os.Prelude.{arith, ◌≡◌, ◌⊎◌, false, minus_one}
use balrog_os.FsCache.{Cache, File, fs_cache_get_new_buffer, fs_cache_add_file, fs_cache_invalidate}
use balrog_os.FsCache.Buffer.{Handed, Refused, fs_cache_get_new_buffer-Handed}
use balrog_os.FsCache.Files.{Added, fs_cache_add_file-Added, fs_cache_invalidate_refuses}

-- A file of 100 bytes in slot 0, with one reference
abbrev one_file : File
one_file = record {
  name = 64;
  data_at = 0xffffffa000000000;
  size = 100;
  protection = 0;
  reference = 1;
  inode_nbr = 12;
}

abbrev cache : Cache
cache = record { file_table = λ i. one_file; slot_taken = λ k. false; mapped = λ a. false }

fs_cache_get_new_buffer-Handed_example :
    Handed cache 100
      ((fs_cache_get_new_buffer (λ i. false) 100 cache).0)
      ((fs_cache_get_new_buffer (λ i. false) 100 cache).1)
    ⊎ Refused
        (λ i. false)
        cache
        100
        ((fs_cache_get_new_buffer (λ i. false) 100 cache).0)
        ((fs_cache_get_new_buffer (λ i. false) 100 cache).1)
fs_cache_get_new_buffer-Handed_example =
    fs_cache_get_new_buffer-Handed (λ i. false) 100 cache (omega arith)

fs_cache_add_file-Added_example : Added 64 4096 5 10 cache (fs_cache_add_file 64 4096 5 10 cache)
fs_cache_add_file-Added_example = fs_cache_add_file-Added 64 4096 5 10 cache

fs_cache_invalidate_refuses_example : fs_cache_invalidate 3 cache ≡ (cache, minus_one)
fs_cache_invalidate_refuses_example = fs_cache_invalidate_refuses 3 cache
