-- ===== src/Store/Documents.antt =====
-- finassist/infrastructure/postgres/document_repository.py.
use loan_credit.Prelude.{
  ℕ, ◌&&◌, List, [], ◌∷◌, ◌++◌, String, any, filter, length, leb, str_eq, if◌then◌else◌,
}
use loan_credit.Domain.Error.{ok}
use loan_credit.Store.Rows.{DocumentRow}
use loan_credit.Store.Session.{World, Action, read, insert_row, visible}

-- `SqlAlchemyDocumentRepository.add`
unfoldable pub add_document : DocumentRow → Action (Unit {0})
unfolding insert_row
add_document d =
    insert_row "documents" d.tenant_id
      (λ db. any (λ r. str_eq r.document_id d.document_id) db.documents)
      (λ db. record db { documents = db.documents ++ d ∷ [] })

-- The rows that the `where` clause and the policy select.
unfoldable pub documents_of : (tenant application_id : String) → World → List DocumentRow
documents_of tenant application_id w =
    filter
      (λ r.
        visible w r.tenant_id
        && (str_eq r.tenant_id tenant && str_eq r.application_id application_id))
      w.view.documents

-- `SqlAlchemyDocumentRepository.count_for_application`
unfoldable pub count_for_application : (tenant application_id : String) → Action ℕ
unfolding read documents_of
count_for_application tenant application_id =
    read (λ w. ok (length (documents_of tenant application_id w)))

-- `order_by(uploaded_at)`: a stable insertion.
unfoldable pub insert_by_upload : DocumentRow → List DocumentRow → List DocumentRow
insert_by_upload d [] = d ∷ []
insert_by_upload d (e ∷ es) =
    let rest = insert_by_upload d es in
    if leb d.uploaded_at e.uploaded_at then d ∷ e ∷ es else e ∷ rest

unfoldable pub sort_by_upload : List DocumentRow → List DocumentRow
unfolding insert_by_upload
sort_by_upload [] = []
sort_by_upload (d ∷ ds) = insert_by_upload d (sort_by_upload ds)

-- `SqlAlchemyDocumentRepository.list_for_application`
unfoldable pub list_for_application : (tenant application_id : String) → Action (List DocumentRow)
unfolding read documents_of sort_by_upload
list_for_application tenant application_id =
    read (λ w. ok (sort_by_upload (documents_of tenant application_id w)))
