-- ===== src/Files/RecordLock/Laws.antt =====
-- record_lock_test.c: what a run leaves in the file.
use linux_system_programming.Prelude.{
  ℕ, ◌+◌, ◌-◌, ◌≤◌, ◌<◌, pos, true, false, List, [], ◌∷◌, ◌++◌, map, none, some, ltb, ◌≡◌, refl,
  arith, length, take, drop, zeros, drop-replicate, append-nil, ◌∙◌, length-take, length-drop,
}
use linux_system_programming.Sys.{err, run, exited, undefined, halted}
use linux_system_programming.Libc.{atoi, c_string, c_string-none, IsText}
use linux_system_programming.Files.RecordLock.{
  open_file, set_lock, lseek, read, write, sleep, close, f_wrlck, f_unlck, lock_type, record_lock,
  process, main, bufsize,
}
use linux_system_programming.Files.RecordLock.Disk.{Disk, disk, store_at}
use linux_system_programming.Files.RecordLock.Masked.{
  mask, loaded, changed, process-disk, written, take-changed, put_at-written, put_at-written_past,
  store_at-put_at,
}

module _ (name path start len : List ℕ) (rest : List (List ℕ)) (a n : ℕ) (d : Disk) where
  -- For a start and a length that are not negative, with a length of at most BUFSIZE, the record
  -- free and its text terminated in the array: a run locks the record for writing before it reads,
  -- writes the masked record back in place (which changes nothing for the length 0), waits, and
  -- unlocks the same range.
  pub main-disk :
      {text : List ℕ}
      → atoi start ≡ pos a
      → atoi len ≡ pos n
      → n ≤ bufsize
      → d.busy ≡ false
      → c_string (loaded a n d.bytes) ≡ some text
      → let r = run disk (main (name ∷ path ∷ start ∷ len ∷ rest)) d in
        (r.result ≡ halted (exited (pos 0)))
        × (r.state.bytes ≡ store_at a (written a n d.bytes) d.bytes)
        × (r.calls
            ≡ open_file path
              ∷ set_lock f_wrlck (pos 3) (pos a) (pos n)
              ∷ lseek (pos 3) (pos a)
              ∷ read (pos 3) n
              ∷ lseek (pos 3) (pos a)
              ∷ write (pos 3) (changed a n d.bytes) n
              ∷ sleep 20
              ∷ set_lock f_unlck (pos 3) (pos a) (pos n)
              ∷ close (pos 3)
              ∷ [])
  unfolding main disk record_lock lock_type
  main-disk ea en small free shown =
      let f : ltb bufsize n ≡ false = ground arith in
      let t : take n (changed a n d.bytes) ≡ written a n d.bytes = take-changed a n d.bytes small in
      let d' : Disk = record { bytes = d.bytes; offset = 0; busy = false } in
      rw ea (rw en (rw f (rw free (rw (process-disk a n d' small shown) (refl, rw t, refl)))))

  -- For a free record of at most BUFSIZE bytes, whose text is terminated in the array and which lies
  -- inside of the file: a run changes its '0' and '9' bytes to 'x', and no
  -- other byte.
  pub main-within :
      {text : List ℕ}
      → atoi start ≡ pos a
      → atoi len ≡ pos n
      → n ≤ bufsize
      → d.busy ≡ false
      → c_string (loaded a n d.bytes) ≡ some text
      → a + n ≤ length d.bytes
      → (run disk (main (name ∷ path ∷ start ∷ len ∷ rest)) d).state.bytes
        ≡ take a d.bytes ++ (map mask (take n (drop a d.bytes)) ++ drop (a + n) d.bytes)
  main-within ea en small free shown inside =
      (main-disk ea en small free shown).1
      ∙ (store_at-put_at a (written a n d.bytes) d.bytes (omega (arith, inside))
          ∙ put_at-written a n d.bytes inside)

  -- For a free record of at most BUFSIZE bytes, whose text is terminated in the array and which
  -- starts inside of the file and runs past its end:
  -- the file grows up to the end of the record, and the new bytes are NULs.
  pub main-grows :
      {text : List ℕ}
      → atoi start ≡ pos a
      → atoi len ≡ pos n
      → n ≤ bufsize
      → d.busy ≡ false
      → c_string (loaded a n d.bytes) ≡ some text
      → a ≤ length d.bytes
      → length d.bytes < a + n
      → (run disk (main (name ∷ path ∷ start ∷ len ∷ rest)) d).state.bytes
        ≡ take a d.bytes ++ (map mask (drop a d.bytes) ++ zeros (a + n - length d.bytes))
  main-grows ea en small free shown inside past =
      (main-disk ea en small free shown).1
      ∙ (store_at-put_at a (written a n d.bytes) d.bytes inside
          ∙ put_at-written_past a n d.bytes inside past)

  -- While another process holds the record, a run for a length of at most BUFSIZE neither reads nor
  -- changes the file.
  pub main-locked_out :
      atoi start ≡ pos a
      → atoi len ≡ pos n
      → n ≤ bufsize
      → d.busy ≡ true
      → let r = run disk (main (name ∷ path ∷ start ∷ len ∷ rest)) d in
        (r.result ≡ halted (exited (pos 0)))
        × (r.state.bytes ≡ d.bytes)
        × (r.calls ≡ open_file path ∷ set_lock f_wrlck (pos 3) (pos a) (pos n) ∷ [])
        × (r.lines ≡ err "record lock error: " ∷ [])
  unfolding main disk record_lock lock_type
  main-locked_out ea en small held =
      let f : ltb bufsize n ≡ false = ground arith in
      rw ea (rw en (rw f (rw held (refl, refl, refl, refl))))

  -- A free record of `BUFSIZE` bytes inside of the file, with no NUL, leaves the array without a
  -- terminator, and printing it as a string is undefined.
  pub main-unterminated :
      atoi start ≡ pos a
      → atoi len ≡ pos bufsize
      → d.busy ≡ false
      → a + bufsize ≤ length d.bytes
      → IsText (take bufsize (drop a d.bytes))
      → (run disk (main (name ∷ path ∷ start ∷ len ∷ rest)) d).result ≡ halted undefined
  unfolding main process disk record_lock lock_type
  main-unterminated ea en free inside plain =
      let e : length (take bufsize (drop a d.bytes)) ≡ bufsize =
        omega (arith, length-take bufsize (drop a d.bytes), length-drop a d.bytes) in
      let s : c_string (loaded a bufsize d.bytes) ≡ none = rw e (
        rw (drop-replicate bufsize)
          (rw append-nil (c_string-none (take bufsize (drop a d.bytes)) plain))) in
      let g : ltb bufsize (length (take bufsize (drop a d.bytes))) ≡ false = rw e in
      rw ea (rw en (rw free (rw g (rw s))))
