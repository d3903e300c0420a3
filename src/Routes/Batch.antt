-- ===== src/Routes/Batch.antt =====
-- The loop of `/register-transactions`, against the transactions of its elements.
use scale_out_distributed_le.Common.{◌≡◌, refl, Bool, true, false, none, some, List, [], ◌∷◌}
use scale_out_distributed_le.Transactions.{Transaction, TransactionList, add_transaction, add_all}
use scale_out_distributed_le.Routes.Requests.{Element, null, object, plain, read_element}
use scale_out_distributed_le.Routes.{add_elements}

-- The transactions of the elements before the first null.
abbrev pub before_null : List Element → List Transaction
before_null [] = []
before_null (e ∷ es) = elim (read_element e) [ none ↦ [] | some tx ↦ tx ∷ before_null es ]

-- No element is null.
abbrev pub has_no_null : List Element → Bool
has_no_null [] = true
has_no_null (null ∷ es) = false
has_no_null (object tx ∷ es) = has_no_null es
has_no_null (plain ∷ es) = has_no_null es

pub add_elements-add_all :
    (l : TransactionList) (es : List Element)
    → add_elements l es ≡ (add_all l (before_null es), has_no_null es)
unfolding add_elements add_all
add_elements-add_all l [] = refl
add_elements-add_all l (null ∷ es) = refl
add_elements-add_all l (object tx ∷ es) = add_elements-add_all (add_transaction l tx) es
add_elements-add_all l (plain ∷ es) = add_elements-add_all (add_transaction l _) es
