-- ===== src/Dsd/Dsdiff/Tests.antt =====
-- Two small files: the theorems of the DSDIFF chunks at work.
use mpd_dsd.Prelude.{
  ◌++◌, ℕ, ◌≡◌, refl, sym, subst, arith, none, [], ◌∷◌, Yields, List, some, zero, suc,
}
use mpd_dsd.Prelude.Arrays.{Array}
use mpd_dsd.Dsd.Stream.{decoder_read_full, dsdlib_skip_to}
use mpd_dsd.Dsd.Disk.{disk, disk-IsInput}
use mpd_dsd.Dsd.Dsf.Blocks.{byte_or}
use mpd_dsd.Dsd.Dsdiff.{chunk_end_offset, DsdiffMetaData, dsdiff_read_prop_snd, read_metadata_loop}
use mpd_dsd.Dsd.Dsdiff.Endless.{IsTrap, Gives, read_metadata_loop_runs}
use mpd_dsd.Dsd.Dsdiff.Props.{HasProps, dsdiff_read_prop_snd-HasProps}

abbrev nothing_read : DsdiffMetaData
nothing_read = record { sample_rate = none; channels = none; chunk_size = 0; data_offset = 0 }

-- A chunk "ABCD" of the size -12
abbrev trap_file : Array ℕ
trap_file i = byte_or 0 (65 ∷ 66 ∷ 67 ∷ 68 ∷ 255 ∷ 255 ∷ 255 ∷ 255 ∷ 255 ∷ 255 ∷ 255 ∷ 244 ∷ []) i

trap_file-IsTrap : IsTrap trap_file 0
trap_file-IsTrap = record { not_prop = refl; not_dsd = refl; negative = refl; within = omega arith }

first_header_read : Yields Gives (decoder_read_full (disk trap_file 100) 12 12 0)
unfolding decoder_read_full
first_header_read = tt

read_metadata_loop_runs_example : read_metadata_loop (disk trap_file 100) 1000 nothing_read 0 ≡ none
read_metadata_loop_runs_example =
    read_metadata_loop_runs (disk trap_file 100) trap_file (disk-IsInput trap_file 100) 0
      trap_file-IsTrap (λ s. refl) (λ s. refl) 1000 nothing_read 0
      (λ s e.
        subst (λ k. Yields Gives (decoder_read_full (disk trap_file 100) 12 12 k)) (sym e)
          first_header_read)
      refl

abbrev zeros : ℕ → List ℕ
zeros zero = []
zeros (suc n) = 0 ∷ zeros n

-- The properties of DSD64 in two channels: FS and CHNL, with the ids of the channels behind their number.
abbrev properties : Array ℕ
properties i =
    byte_or 0
      (70 ∷ 83 ∷ 32 ∷ 32 ∷ zeros 7
        ++ 4 ∷ 0 ∷ 43 ∷ 17 ∷ 0 ∷ 67 ∷ 72 ∷ 78 ∷ 76 ∷ zeros 7
        ++ 10 ∷ 0 ∷ 2 ∷ 83 ∷ 76 ∷ 70 ∷ 84 ∷ 83 ∷ 82 ∷ 71 ∷ 84 ∷ [])
      i

properties_test :
    dsdiff_read_prop_snd (disk properties 38) 39 38 nothing_read 0
    ≡ some (38, some (record nothing_read { sample_rate = some 2822400; channels = some 2 }))
unfolding dsdiff_read_prop_snd decoder_read_full chunk_end_offset dsdlib_skip_to
properties_test = refl

dsdiff_read_prop_snd-HasProps_example :
    Yields
      (HasProps (disk properties 38) properties (disk-IsInput properties 38) 38)
      (dsdiff_read_prop_snd (disk properties 38) 39 38 nothing_read 0)
dsdiff_read_prop_snd-HasProps_example =
    dsdiff_read_prop_snd-HasProps (disk properties 38) properties (disk-IsInput properties 38) 38 39
      nothing_read 0 (omega arith) (omega arith) (omega arith) refl
