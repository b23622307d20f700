-- ===== src/Verify/Cases.antt =====
-- `cases` in tools/model-prep/verify.py: what the exported model is compared on.
use laya_rs.Base.{
  ℕ, suc, zero, Bool, ◌&&◌, none, some, List, [], ◌∷◌, ◌++◌, map, String, ◌<>◌, nat_eq, string_eq,
  leb, length, get_elem?, replicate,
}
use laya_rs.Base.Dict.{Dict, lookup}
use laya_rs.Base.Json.{Json, get}
use laya_rs.Base.Raises.{Raises, ok, raise, require, index_error, key_error}
use laya_rs.Base.Checked.{◌>>=◌, ◌>>◌, collect_each}
use laya_rs.Base.Text.{decimal}
use laya_rs.Verify.{Criteria, described, ordered, Example, BatchItem, Tools}
use laya_rs.Verify.Opening.{port_names}

-- `s * n` of a text
unfoldable pub repeat : ℕ → String → String
repeat zero s = ""
repeat (suc n) s = s <> repeat n s

-- `xs * n` of a list
unfoldable pub repeat_list : {A : Type 0} → ℕ → List A → List A
repeat_list zero xs = []
repeat_list (suc n) xs = xs ++ repeat_list n xs

-- `xs[:n]`
unfoldable pub take : {A : Type 0} → ℕ → List A → List A
take zero xs = []
take (suc n) [] = []
take (suc n) (x ∷ xs) = x ∷ take n xs

-- The numbers below `n`, from `from`.
unfoldable pub range : ℕ → ℕ → List ℕ
range from zero = []
range from (suc n) = from ∷ range (suc from) n

abbrev example : String → String → String → String → Criteria → Example
example name state kind instructions criteria = record {
  name = name;
  state = state;
  kind = kind;
  instructions = instructions;
  criteria = criteria;
}

abbrev zh_state : String
zh_state = "客户重复扣款，希望立即退款。"

abbrev en_state : String
en_state = "The app crashes when I sign in."

unfoldable pub first_examples : List Example
unfolding repeat
first_examples =
    example "zh-choice" zh_state "choice" "由哪个部门处理？"
      (described (("账单", some "退款、支付") ∷ ("技术", some "软件故障") ∷ ("销售", some "购买咨询") ∷ []))
    ∷ example "zh-score" zh_state "score" "处理优先级？" (ordered ("低" ∷ "中" ∷ "高" ∷ "紧急" ∷ []))
    ∷ example "zh-noul" zh_state "noul" "客户需要退款。" (described [])
    ∷ example "en-choice" en_state "choice" "Choose a team." (
        described
          (("billing", none) ∷ ("technical", some "Software faults") ∷ ("sales", none) ∷ []))
    ∷ example "en-score" en_state "score" "Rate urgency." (ordered ("low" ∷ "medium" ∷ "high" ∷ []))
    ∷ example "en-noul" en_state "noul" "The customer reports a software fault." (described [])
    ∷ example "empty" "" "choice" "" (described (("", none) ∷ (" ", none) ∷ []))
    ∷ example "long" (repeat 1500 "客户需要帮助。 ") "choice" "请选择。"
        (described (("是", none) ∷ ("否", none) ∷ []))
    ∷ []

-- The example with `k` options.
unfoldable pub options_example : ℕ → Example
unfolding decimal repeat range
options_example k =
    example ("options-" <> decimal k) "test" "choice" "Select."
      (described (map (λ i. (decimal i, some (repeat 60 "candidate "))) (range 0 k)))

unfoldable pub examples : List Example
unfolding first_examples options_example
examples = first_examples ++ map options_example (5 ∷ 6 ∷ 10 ∷ 11 ∷ 32 ∷ [])

-- `2 <= len(markers) <= 32 and len(ids) <= 1024`
abbrev pub is_bounded : List ℕ → List ℕ → Bool
is_bounded ids markers = leb 2 (length markers) && leb (length markers) 32 && leb (length ids) 1024

-- `items[i]`
unfoldable pub item_at : {A : Type 0} → List A → ℕ → Raises A
item_at xs i = elim (get_elem? xs i) [ none ↦ raise index_error | some x ↦ ok x ]

-- `items[-1]`
unfoldable pub last_item : {A : Type 0} → List A → Raises A
last_item [] = raise index_error
last_item (x ∷ []) = ok x
last_item (x ∷ y ∷ xs) = last_item (y ∷ xs)

-- A batch of one item for each.
abbrev pub single_groups : List BatchItem → List (String × List BatchItem)
single_groups items = map (λ (i : BatchItem). (i.name, i ∷ [])) items

unfoldable pub groups : List BatchItem → Raises (List (String × List BatchItem))
unfolding take repeat_list item_at last_item
groups items = do
  long ← item_at items 7
  short ← item_at items 6
  last ← last_item items
  ok (
      single_groups items
      ++ (("mixed-2", take 2 items)
          ∷ ("mixed-6", take 6 items)
          ∷ ("mixed-16", take 16 (repeat_list 3 (take 6 items)))
          ∷ ("long-padding", long ∷ short ∷ [])
          ∷ ("long-options-padding", long ∷ last ∷ [])
          ∷ []))

-- `batch[key]`
unfoldable pub tensor_at : {Q : Type 0} → Dict String Q → String → Raises (String × Q)
unfolding lookup
tensor_at batch key = elim (lookup key batch) [ none ↦ raise key_error | some q ↦ ok (key, q) ]

module _ {B M T Q : Type 0} (tools : Tools B M T Q) where
  open tools use {build_sequence, qtypes, collate_items}

  unfoldable pub item_of : T → Json → Example → Raises BatchItem
  unfolding get
  item_of tok config example = do
    max_len ← get "max_len" config
    head_max_len ← get "head_max_len" config
    sequence ← build_sequence tok example max_len head_max_len
    require (is_bounded sequence.0 sequence.1)
    qtype ← qtypes example.kind
    ok (record {
      ids = sequence.0;
      markers = sequence.1;
      qtype = qtype;
      target = replicate (length sequence.1) 0;
      name = example.name;
    })

  -- The batch of a group, with the tensors that the model takes.
  unfoldable pub batch_of : T → List BatchItem → Raises (Dict String Q)
  unfolding tensor_at
  batch_of tok group = do batch ← collate_items group tok; collect_each (tensor_at batch) port_names

  -- The groups, before the first batch is made.
  unfoldable pub case_groups : T → Json → Raises (List (String × List BatchItem))
  unfolding item_of examples groups
  case_groups tok config = do items ← collect_each (item_of tok config) examples; groups items
