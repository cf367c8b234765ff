-- ===== src/Files/Mmap/Tests.antt =====
-- mmap_example.c: the theorems at a file of the bytes "ok".
use linux_system_programming.Prelude.{ℕ, pos, true, List, [], ◌∷◌, map, ◌≡◌, refl, arith}
use linux_system_programming.Sys.{halted, exited, Kernel, run}
use linux_system_programming.Files.Mmap.{
  Call, Reply, open_file, fstat, mmap, close, munmap, s_isreg, put_chars, main,
}
use linux_system_programming.Files.Mmap.Laws.{put_char, main-copies}

-- Descriptor 3, a regular file of mode 0644 with two bytes.
abbrev kernel : Kernel Call Reply (Unit {0})
kernel c s = (record { ret = pos 3; st_mode = 0o100644; st_size = 2; memory = b'o' ∷ b'k' ∷ [] }, s)

abbrev path : List ℕ
path = b'f' ∷ []

regular : s_isreg 0o100644 ≡ true
unfolding s_isreg
regular = refl

main-run : (run kernel (main (path ∷ path ∷ [])) tt).result ≡ halted (exited (pos 0))
unfolding main s_isreg put_chars
main-run = refl

main-copies_example : run kernel (main (path ∷ path ∷ [])) tt ≡ record {
  result = halted (exited (pos 0));
  state = tt;
  calls = open_file path ∷ fstat (pos 3) ∷ mmap 2 (pos 3) ∷ close (pos 3) ∷ munmap (pos 3) 2 ∷ [];
  lines = map put_char (b'o' ∷ b'k' ∷ []);
}
main-copies_example =
    main-copies kernel path path [] tt refl refl regular refl (omega arith) (omega arith) refl refl
