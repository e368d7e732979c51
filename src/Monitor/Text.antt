-- ===== src/Monitor/Text.antt =====
-- `asPrometheus`: the text of the metrics, by family.
use zfsbackup.Base.{
  ◌||◌, ◌==◌, List, [], ◌∷◌, ◌++◌, Bytes, codes, map, flat, if◌then◌else◌, is_empty, text_eq, join,
  sort_texts, show_int, GroupMap, group_of, add_to_group, keys, sort_texts,
}
use zfsbackup.Monitor.Metrics.{Metric}

-- `%q` of a text without control characters; a quote and a backslash, 92, are escaped.
unfoldable pub escaped : Bytes → Bytes
escaped [] = b'"' ∷ []
escaped (c ∷ s) = if c == b'"' || c == 92 then 92 ∷ c ∷ escaped s else c ∷ escaped s

unfoldable pub quote : Bytes → Bytes
unfolding escaped
quote s = b'"' ∷ escaped s

-- `m.Dimensions[k]`
unfoldable pub dimension : Bytes → List (Bytes × Bytes) → Bytes
unfolding text_eq
dimension k [] = []
dimension k ((l, v) ∷ ds) = let rest = dimension k ds in if text_eq l k then v else rest

unfoldable pub dimension_keys : List (Bytes × Bytes) → List Bytes
dimension_keys [] = []
dimension_keys ((k, v) ∷ ds) = k ∷ dimension_keys ds

-- `asPrometheus` of a metric.
unfoldable pub metric_text : Metric → Bytes
unfolding quote dimension dimension_keys sort_texts join show_int
metric_text m =
    let dim =
      map (λ k. k ++ b'=' ∷ quote (dimension k m.dimensions))
        (sort_texts (dimension_keys m.dimensions)) in
    m.name
    ++ (if is_empty m.dimensions then [] else b'{' ∷ join dim b',' ++ codes "}")
    ++ b' ' ∷ show_int m.value

-- `families`. The keys of such a map stand in the order of `names`.
unfoldable pub families : List Metric → GroupMap Metric → GroupMap Metric
unfolding add_to_group
families [] m = m
families (met ∷ mets) m = families mets (add_to_group met.name met m)

-- A family, with its two header lines.
unfoldable pub family_text : Bytes → List Metric → Bytes
unfolding metric_text
family_text name mets =
    codes "# HELP "
    ++ name
    ++ codes " zfsbackup metric"
    ++ 10 ∷ codes "# TYPE "
    ++ name
    ++ codes " untyped"
    ++ 10 ∷ flat (map (λ m. metric_text m ++ 10 ∷ []) mets)

-- `asPrometheus`
unfoldable pub as_prometheus : List Metric → Bytes
unfolding families family_text group_of keys
as_prometheus metrics =
    let m = families metrics [] in flat (map (λ name. family_text name (group_of name m)) (keys m))
