-- ===== src/Influx/Points.antt =====
-- What extends/influxlog makes of a line.
use cdp_cache.Base.{
  ℕ, ◌≡◌, ◌≢◌, refl, sym, ap, ◌∙◌, Option, none, some, List, [], ◌∷◌, arith, length, All,
  append_assoc,
}
use cdp_cache.Base.Text.{Str, split_byte, pieces_list, join}
use cdp_cache.Base.Split.{Lacks, split_byte-Lacks, split_byte-at}
use cdp_cache.Influx.{LogTools, or_now, write_fields, write_tokens, write}

-- Splitting at tabs undoes joining with tabs.
split_byte-join :
    (a : Str) (args : List Str)
    → All (Lacks 9) (a ∷ args)
    → pieces_list (split_byte (join (a ∷ args) (9 ∷ [])) 9) ≡ a ∷ args
unfolding join
split_byte-join a [] (h, _) = rw (split_byte-Lacks a 9 h) refl
split_byte-join a (b ∷ args) (h, hs) =
    ap (λ s. pieces_list (split_byte s 9)) (append_assoc a (9 ∷ []) (join (b ∷ args) (9 ∷ [])))
    ∙ ap pieces_list (split_byte-at a (join (b ∷ args) (9 ∷ [])) 9 h)
    ∙ ap (λ ps. a ∷ ps) (split_byte-join b args hs)

write-join :
    {T V : Type 0} (tools : LogTools T V) (a : Str) (parts : List Str)
    → All (Lacks 9) (a ∷ parts)
    → (n : ℕ) × (write tools (join (a ∷ parts) (9 ∷ [])) ≡ write_tokens tools n (a ∷ parts))
unfolding write
write-join tools a parts h = (
  length (join (a ∷ parts) (9 ∷ [])),
  ap (write_tokens tools (length (join (a ∷ parts) (9 ∷ [])))) (split_byte-join a parts h),
)

same_point :
    {T V : Type 0} (tools : LogTools T V) (m n : ℕ) (t : T) (action messages : Str)
    (o : Option (List (Str × V)))
    → (write_fields tools m t action messages o).0 ≡ (write_fields tools n t action messages o).0
same_point tools m n t action messages none = refl
same_point tools m n t action messages (some fields) = refl

-- Two lines of five parts, none of them with a tab, that differ only in their second and third part,
-- the level and the module, are written as the same point.
pub level_is_lost :
    {T V : Type 0} (tools : LogTools T V) (time level level' part part' action messages : Str)
    → All (Lacks 9) (time ∷ level ∷ part ∷ action ∷ messages ∷ [])
    → All (Lacks 9) (time ∷ level' ∷ part' ∷ action ∷ messages ∷ [])
    → (write tools (join (time ∷ level ∷ part ∷ action ∷ messages ∷ []) (9 ∷ []))).0
      ≡ (write tools (join (time ∷ level' ∷ part' ∷ action ∷ messages ∷ []) (9 ∷ []))).0
unfolding write_tokens
level_is_lost tools time level level' part part' action messages h k =
    let (m, e) = write-join tools time (level ∷ part ∷ action ∷ messages ∷ []) h in
    let (n, f) = write-join tools time (level' ∷ part' ∷ action ∷ messages ∷ []) k in
    ap (λ w. w.0) e
    ∙ same_point tools m n (or_now tools.now (tools.parse_time time)) action messages
        (tools.decode messages)
    ∙ ap (λ w. w.0) (sym f)

empty_point :
    {T V : Type 0} (tools : LogTools T V) (n : ℕ) (tokens : List Str)
    → length tokens ≢ 5
    → write_tokens tools n tokens
      ≡ (some (record { time = tools.zero_time; fields = [] }), (n, none))
unfolding write_tokens
empty_point tools n [] h = refl
empty_point tools n (a ∷ []) h = refl
empty_point tools n (a ∷ b ∷ []) h = refl
empty_point tools n (a ∷ b ∷ c ∷ []) h = refl
empty_point tools n (a ∷ b ∷ c ∷ d ∷ []) h = refl
empty_point tools n (a ∷ b ∷ c ∷ d ∷ e ∷ []) h = absurd (h (omega arith))
empty_point tools n (a ∷ b ∷ c ∷ d ∷ e ∷ f ∷ tokens) h = refl

-- A line that has not five parts becomes a point without fields, and the caller is told that all of
-- it has been written.
pub other_lines_are_empty :
    {T V : Type 0} (tools : LogTools T V) (content : Str)
    → length (pieces_list (split_byte content 9)) ≢ 5
    → write tools content
      ≡ (some (record { time = tools.zero_time; fields = [] }), (length content, none))
unfolding write
other_lines_are_empty tools content n =
    empty_point tools (length content) (pieces_list (split_byte content 9)) n
