-- ===== src/ReadPath/Tests.antt =====
-- driver/vscsi.c: a read, on a concrete context.
use fdlvling.Base.{true, arith}
use fdlvling.ReadPath.{Surroundings, read_loop}
use fdlvling.ReadPath.Served.{ReadRight, read_loop-right}
use fdlvling.ReadPath.Lengths.{MapPlaces}
use fdlvling.Store.Sample.{sample, sample_map, sample_flash, sample-WellFormed}

abbrev calm : Surroundings
calm = record { active = λ _. true; addressable = true; drive_reads = λ _ _. true }

sample-MapPlaces : MapPlaces sample_map
sample-MapPlaces b n = ground (arith, n)

-- Sectors on the drive, in the cache, on the drive again, and on neither.
read_loop_example :
    ReadRight calm sample sample_flash 12 28
      (read_loop 29 calm sample sample_flash 12 28 0 (λ _. 0))
read_loop_example =
    read_loop-right calm sample sample_flash 12 28 (λ _. 0) (sample-WellFormed 10 (omega arith))
      sample-MapPlaces (omega arith)
