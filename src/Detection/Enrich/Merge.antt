-- ===== src/Detection/Enrich/Merge.antt =====
-- Merging of telemetry metadata: mergeMeta of detection.go.
use mini_edr.Prelude.{Float64, ◌≡◌, arith, int_eq}
use mini_edr.Capturer.Info.{TelemetryMeta}
use mini_edr.Detection.Enrich.{merge_meta}

module _ {F : Type 0} ⦃fl : Float64 F⦄ where
  -- Merging is associative, whatever `==` on the floats does.
  merge_meta_assoc :
      (a b c : TelemetryMeta F) → merge_meta (merge_meta a b) c ≡ merge_meta a (merge_meta b c)
  unfolding merge_meta
  merge_meta_assoc a b c = ground arith
