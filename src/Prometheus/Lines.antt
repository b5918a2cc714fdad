-- ===== src/Prometheus/Lines.antt =====
-- The metadata of a device as a scraper reads it, and the names of metrics.
use lin_sight.Base.{◌≡◌, refl, ap, ◌∙◌, List, [], ◌∷◌, ◌++◌, map, Option, some, Text, codes, arith}
use lin_sight.Base.Partial.{◌>>=◌}
use mathlib.Core.List.{append_assoc}
use lin_sight.Base.Keys.{text_eq}
use lin_sight.Base.Dict.{Dict, lookup}
use lin_sight.Core.Chars.{strip_prefix}
use lin_sight.Core.Hardware.{
  HardwareDevice, HardwareCategory, cpu, gpu, storage, network, other, as_str,
}
use lin_sight.Prometheus.{escaped_label, info_line, or_empty}
use lin_sight.Prometheus.Labels.{read_label, read_label-escaped_label}

strip_prefix-append : (p t : Text) → strip_prefix p (p ++ t) ≡ some t
unfolding strip_prefix
strip_prefix-append [] t = refl
strip_prefix-append (c ∷ cs) t = ground (arith, strip_prefix-append cs t)

-- Labels one after the other, each behind the text that introduces it, up to an end.
unfoldable pub read_labels : Text → List Text → Text → Option (List Text × Text)
unfolding strip_prefix read_label
read_labels end [] t = do rest ← strip_prefix end t; some ([], rest)
read_labels end (p ∷ ps) t = do
  at_value ← strip_prefix p t
  read ← read_label at_value
  more ← read_labels end ps read.1
  some (read.0 ∷ more.0, more.1)

abbrev labelled : Text → List (Text × Text) → Text → Text
labelled end [] rest = end ++ rest
labelled end ((p, v) ∷ ls) rest = p ++ (escaped_label v ++ b'"' ∷ labelled end ls rest)

read_labels-labelled :
    (end : Text) (ls : List (Text × Text)) (rest : Text)
    → read_labels end (map (λ l. l.0) ls) (labelled end ls rest) ≡ some (map (λ l. l.1) ls, rest)
unfolding read_labels
read_labels-labelled end [] rest = rw (read_labels, strip_prefix-append end rest) refl
read_labels-labelled end ((p, v) ∷ ls) rest =
    rw
      (
        read_labels,
        strip_prefix-append p (escaped_label v ++ b'"' ∷ labelled end ls rest),
        read_label-escaped_label v (labelled end ls rest),
        read_labels-labelled end ls rest,
      )
      refl

-- What introduces the labels of `linsight_hardware_info`, and what ends them.
abbrev pub introductions : List Text
introductions =
    codes "linsight_hardware_info{device_key=\""
    ∷ codes ",category=\""
    ∷ codes ",model=\""
    ∷ codes ",vendor=\""
    ∷ codes ",nickname=\""
    ∷ codes ",plugin_id=\""
    ∷ []

abbrev pub read_info : Text → Option (List Text × Text)
read_info = read_labels (codes "} 1" ++ 10 ∷ []) introductions

escaped_label-as_str : (c : HardwareCategory) → escaped_label (as_str c) ≡ as_str c
unfolding escaped_label as_str
escaped_label-as_str gpu = refl
escaped_label-as_str storage = refl
escaped_label-as_str network = refl
escaped_label-as_str cpu = refl
escaped_label-as_str other = refl

-- A device's metadata.
abbrev pub info_of : Dict Text Text → HardwareDevice → List Text
info_of nicknames dev =
    dev.key
    ∷ as_str dev.category
    ∷ dev.model
    ∷ or_empty dev.vendor
    ∷ or_empty (lookup dev.key nicknames)
    ∷ dev.plugin_id
    ∷ []

abbrev zipped : List Text → List Text → List (Text × Text)
zipped [] ys = []
zipped (x ∷ xs) [] = []
zipped (x ∷ xs) (y ∷ ys) = (x, y) ∷ zipped xs ys

info_line-labelled :
    (nicknames : Dict Text Text) (dev : HardwareDevice) (rest : Text)
    → info_line nicknames dev ++ rest
      ≡ labelled (codes "} 1" ++ 10 ∷ []) (zipped introductions (info_of nicknames dev)) rest
unfolding info_line
info_line-labelled nicknames dev rest = simp (info_line, escaped_label-as_str, append_assoc)

-- The line of a device's metadata is read back as the device's key, category, model, vendor, nickname
-- and plugin, whatever characters these texts have, and what follows the line is left.
pub read_info-info_line :
    (nicknames : Dict Text Text) (dev : HardwareDevice) (rest : Text)
    → read_info (info_line nicknames dev ++ rest) ≡ some (info_of nicknames dev, rest)
read_info-info_line nicknames dev rest =
    ap read_info (info_line-labelled nicknames dev rest)
    ∙ read_labels-labelled (codes "} 1" ++ 10 ∷ []) (zipped introductions (info_of nicknames dev))
        rest
