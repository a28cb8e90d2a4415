-- ===== src/Server/JsonLog.antt =====
-- The debug log of server/server.go, which calls no one makes: `serverToJson` and `writeToJson`. What
-- encoding/json and the file answer is the parameter `Output`; an error is the panic of that error.
use Prim.Native.String.{◌++◌ as ◌<>◌}
use mathlib.Core.List.{append-nil, append_assoc}
use committer.Prelude.{
  ◌≡◌, refl, ap, ◌∙◌, String, Option, none, some, List, [], ◌∷◌, ◌++◌, str_eq, if◌then◌else◌,
}
use committer.Database.{Result, ok, err}

pub record Output : Type 1 where
  pub Value : Type 0
  pub File : Type 0
  -- A text and a list of messages as values.
  pub name : String → Value
  pub messages : List (List (String × Value)) → Value
  pub marshal : (String → Option Value) → Result String
  pub open_file : Result File
  pub write_string : File → String → Result File

module _ (out : Output) where
  -- The variables `f` and `msgs` of the package.
  pub record JsonLog : Type 0 where
    pub file : Option out.File
    pub msgs : List (List (String × out.Value))

  write_line : Result out.File → String → JsonLog → Result JsonLog
  write_line (err e) line l = err e
  write_line (ok f) line l = elim (out.write_string f line) [
    | err e ↦ err e
    | ok f' ↦ ok (record l { file = some f' })
  ]

  -- The file is opened once.
  opened : Option out.File → Result out.File
  opened none = out.open_file
  opened (some f) = ok f

  unfoldable pub write_to_json : (String → Option out.Value) → JsonLog → Result JsonLog
  unfolding write_line opened
  write_to_json m l = elim (out.marshal m) [
    | err e ↦ err e
    | ok line ↦ write_line (opened l.file) (line <> "\n") l
  ]

  -- `for k, v := range aux { m[k] = v }`; the keys of a map differ, so its order is not seen.
  with_aux : List (String × out.Value) → (String → Option out.Value) → String → Option out.Value
  with_aux [] m k = m k
  with_aux ((j, v) ∷ aux) m k = if str_eq k j then some v else with_aux aux m k

  noted : Option (List (String × out.Value)) → JsonLog → JsonLog
  noted none l = l
  noted (some msg) l = record l { msgs = l.msgs ++ msg ∷ [] }

  base : String → JsonLog → String → Option out.Value
  base action l k =
      if str_eq k "_name"
      then some (out.name action)
      else if str_eq k "_message"
      then some (out.messages l.msgs)
      else none

  unfoldable pub server_to_json :
      String
      → Option (List (String × out.Value))
      → List (String × out.Value)
      → JsonLog
      → Result JsonLog
  unfolding write_to_json with_aux noted base
  server_to_json action msg aux l =
      let l' = noted msg l in write_to_json (with_aux aux (base action l')) l'

  -- Lines of the log, one after another.
  unfoldable server_to_jsons :
      List (String × Option (List (String × out.Value)) × List (String × out.Value))
      → JsonLog
      → Result JsonLog
  unfolding server_to_json
  server_to_jsons [] l = ok l
  server_to_jsons ((action, msg, aux) ∷ ls) l = elim (server_to_json action msg aux l) [
    | err e ↦ err e
    | ok l' ↦ server_to_jsons ls l'
  ]

  -- The messages of the lines that have one.
  abbrev given :
      List (String × Option (List (String × out.Value)) × List (String × out.Value))
      → List (List (String × out.Value))
  given [] = []
  given ((action, none, aux) ∷ ls) = given ls
  given ((action, some msg, aux) ∷ ls) = msg ∷ given ls

  after_write :
      (l l' : JsonLog) (w : Result out.File)
      → elim w as (λ _. Result JsonLog) [ err e ↦ err e | ok f' ↦ ok (record l { file = some f' }) ]
        ≡ ok l'
      → l'.msgs ≡ l.msgs
  after_write l l' (err e) h = cc h
  after_write l l' (ok f) h = cc h

  write_line-msgs :
      (r : Result out.File) (line : String) (l l' : JsonLog)
      → write_line r line l ≡ ok l'
      → l'.msgs ≡ l.msgs
  unfolding write_line
  write_line-msgs (err e) line l l' h = cc h
  write_line-msgs (ok f) line l l' h = after_write l l' (out.write_string f line) h

  after_marshal :
      (l l' : JsonLog) (r : Result String)
      → elim r as (λ _. Result JsonLog) [
        | err e ↦ err e
        | ok line ↦ write_line (opened l.file) (line <> "\n") l
      ]
        ≡ ok l'
      → l'.msgs ≡ l.msgs
  after_marshal l l' (err e) h = cc h
  after_marshal l l' (ok line) h = write_line-msgs (opened l.file) (line <> "\n") l l' h

  given_one :
      (msg : Option (List (String × out.Value))) (action : String) (aux : List (String × out.Value))
      (ls : List (String × Option (List (String × out.Value)) × List (String × out.Value)))
      (l : JsonLog)
      → (noted msg l).msgs ++ given ls ≡ l.msgs ++ given ((action, msg, aux) ∷ ls)
  unfolding noted
  given_one none action aux ls l = refl
  given_one (some x) action aux ls l = append_assoc l.msgs (x ∷ []) (given ls)

  after_line :
      (ls : List (String × Option (List (String × out.Value)) × List (String × out.Value)))
      (l' : JsonLog) (r : Result JsonLog)
      → elim r as (λ _. Result JsonLog) [ err e ↦ err e | ok k ↦ server_to_jsons ls k ] ≡ ok l'
      → (k : JsonLog) × (r ≡ ok k) × (server_to_jsons ls k ≡ ok l')
  after_line ls l' (err e) h = absurd (cc h)
  after_line ls l' (ok k) h = (k, refl, h)

  -- Messages accumulate: if lines are written one after another without an error, then the messages
  -- are those that were there and those of the lines, in their order.
  server_to_jsons-msgs :
      (ls : List (String × Option (List (String × out.Value)) × List (String × out.Value)))
      (l l' : JsonLog)
      → server_to_jsons ls l ≡ ok l'
      → l'.msgs ≡ l.msgs ++ given ls
  unfolding server_to_jsons server_to_json write_to_json
  server_to_jsons-msgs [] l l' h = rw (append-nil l.msgs) (cc h)
  server_to_jsons-msgs ((action, msg, aux) ∷ ls) l l' h =
      let (k, wrote, rest) = after_line ls l' (server_to_json action msg aux l) h in
      let l₁ = noted msg l in
      let later = server_to_jsons-msgs ls k l' rest in
      let same : k.msgs ≡ l₁.msgs =
        after_marshal l₁ k (out.marshal (with_aux aux (base action l₁))) wrote in
      later ∙ ap (λ ms. ms ++ given ls) same ∙ given_one msg action aux ls l
