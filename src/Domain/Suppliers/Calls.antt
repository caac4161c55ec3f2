-- ===== src/Domain/Suppliers/Calls.antt =====
-- The calls that a client can make on a supplier: one for each public method that changes it.
use hackathon_open_ai.Prelude.{String, List}
use hackathon_open_ai.Value.{Value}
use hackathon_open_ai.Domain.Suppliers.Methods
use hackathon_open_ai.Domain.Suppliers.Methods.{SupplierMethod}

pub data Call : Type 0 where
  record_materials_uploaded : (document : Value) → Call
  record_extraction : (extraction : Value) → Call
  request_review : (review : Value) → Call
  confirm_review : (submission : Value) (fields : List String) → Call
  activate : Call
  suspend : (why : Value) → Call
  expire : (at : Value) → Call

unfoldable pub run : Call → SupplierMethod
run (Call.record_materials_uploaded document) = Methods.record_materials_uploaded document
run (Call.record_extraction extraction) = Methods.record_extraction extraction
run (Call.request_review review) = Methods.request_review review
run (Call.confirm_review submission fields) = Methods.confirm_review submission fields
run Call.activate = Methods.activate
run (Call.suspend why) = Methods.suspend why
run (Call.expire at) = Methods.expire at
