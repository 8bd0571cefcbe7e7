-- ===== src/Dsd/Disk.antt =====
-- A stream for the tests: the first bytes of a file on a disk, where a state is an offset.
use mpd_dsd.Prelude.{ℕ, ◌+◌, ◌-◌, refl, sym, ap, arith, true, min}
use mpd_dsd.Prelude.Arrays.{Array}
use mpd_dsd.Dsd.Stream.{bytes_at, InputStream}
use mpd_dsd.Dsd.Stream.Whole.{IsInput}
use mpd_dsd.Dsd.Dsf.Positions.{length-bytes_at}

abbrev pub disk : Array ℕ → ℕ → InputStream ℕ
disk file size = record {
  get_offset = λ s. s;
  get_size = λ s. size;
  is_seekable = λ s. true;
  seek = λ n s. (n, true);
  seek_by = λ n s. (s + n, true);
  read = λ n s. (s + min n (size - s), bytes_at file s (min n (size - s)));
}

pub disk-IsInput : (file : Array ℕ) (size : ℕ) → IsInput file (disk file size)
disk-IsInput file size = record {
  read_within = λ n s. omega (arith, length-bytes_at file s (min n (size - s)));
  read_bytes = λ n s. ap (bytes_at file s) (sym (length-bytes_at file s (min n (size - s))));
  read_moves = λ n s. omega (arith, length-bytes_at file s (min n (size - s)));
  seek_moves = λ n s e. refl;
  seek_by_moves = λ n s e. refl;
}
