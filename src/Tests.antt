-- ===== src/Tests.antt =====
-- The theorems at concrete inputs, and runs of the model: one child for each part.
mod QueueCases
mod ManagerCases
mod JournalCases
mod KeyValueCases
mod QaCases
mod ScratchCases
mod SessionCases
mod PreviewCases
mod ContractCases
mod BusCases
mod KnowledgeCases
mod InjectionCases
mod TemplateCases
mod EndingCases
mod VariantCases
