-- ===== src/Search/Weights.antt =====
-- The tables hierarchyWeights and searchMetadataHints of src/search_store.go.
use mcpyeahyouknowme.Prelude.{ℕ, String, ◌<>◌, [], ◌∷◌, none, some, string_eq}
use mcpyeahyouknowme.Prelude.Dict.{Dict, lookup}

-- The weights in tenths.
abbrev pub hierarchy_weights : Dict String ℕ
hierarchy_weights =
    ("chat_name", 30)
    ∷ ("participant", 20)
    ∷ ("chat_content", 10)
    ∷ ("document_title", 20)
    ∷ ("document_owner", 20)
    ∷ ("document_content", 10)
    ∷ ("spreadsheet_title", 20)
    ∷ ("spreadsheet_owner", 20)
    ∷ ("spreadsheet_content", 10)
    ∷ ("email_subject", 25)
    ∷ ("email_content", 10)
    ∷ ("email_thread_subject", 25)
    ∷ ("email_thread_participants", 20)
    ∷ ("email_thread_content", 10)
    ∷ ("calendar_event", 20)
    ∷ ("calendar_event_description", 10)
    ∷ ("task", 15)
    ∷ ("contact", 20)
    ∷ ("presentation_title", 20)
    ∷ ("presentation_owner", 20)
    ∷ ("presentation_content", 10)
    ∷ ("note_title", 20)
    ∷ ("note_content", 10)
    ∷ ("pdf_title", 20)
    ∷ ("pdf_content", 10)
    ∷ ("image", 15)
    ∷ ("browser_visit", 18)
    ∷ []

abbrev pub search_metadata_hints : Dict String String
search_metadata_hints =
    ("whatsapp:chat_name", "metadata contains {\"jid\",\"is_group\"}")
    ∷ (
      "whatsapp:participant",
      "metadata contains {\"jid\",\"groups\"}; use jid with whatsapp_get_chat",
    )
    ∷ (
      "whatsapp:chat_content",
      "metadata contains {\"chat_jid\",\"chunk_index\",\"start_message_id\",\"end_message_id\",\"start_timestamp\",\"end_timestamp\"}; use start_message_id with whatsapp_get_message_context",
    )
    ∷ (
      "gsuite:document_title",
      "metadata contains {\"document_id\",\"modified_time\"}; use document_id with gsuite_docs_get_document",
    )
    ∷ (
      "gsuite:document_owner",
      "metadata contains {\"document_id\",\"modified_time\"}; use document_id with gsuite_docs_get_document",
    )
    ∷ (
      "gsuite:document_content",
      "metadata contains {\"document_id\",\"modified_time\"}; use document_id with gsuite_docs_get_document",
    )
    ∷ (
      "gsuite:spreadsheet_title",
      "metadata contains {\"spreadsheet_id\",\"modified_time\"}; use spreadsheet_id with gsuite_sheets_get_spreadsheet",
    )
    ∷ (
      "gsuite:spreadsheet_owner",
      "metadata contains {\"spreadsheet_id\",\"modified_time\"}; use spreadsheet_id with gsuite_sheets_get_spreadsheet",
    )
    ∷ (
      "gsuite:spreadsheet_content",
      "metadata contains {\"spreadsheet_id\",\"modified_time\"}; use spreadsheet_id with gsuite_sheets_get_spreadsheet",
    )
    ∷ (
      "gsuite:email_thread_subject",
      "metadata contains {\"thread_id\",\"participants\",\"last_date\"}; use thread_id with gsuite_gmail_get_thread",
    )
    ∷ (
      "gsuite:email_thread_participants",
      "metadata contains {\"thread_id\",\"participants\",\"last_date\"}; use thread_id with gsuite_gmail_get_thread",
    )
    ∷ (
      "gsuite:email_thread_content",
      "metadata contains {\"thread_id\",\"participants\",\"last_date\"}; use thread_id with gsuite_gmail_get_thread",
    )
    ∷ (
      "gsuite:email_subject",
      "metadata contains {\"message_id\",\"from\",\"date\",\"folder\"}; use message_id with gsuite_gmail_get_message",
    )
    ∷ (
      "gsuite:email_content",
      "metadata contains {\"message_id\",\"from\",\"date\",\"folder\"}; use message_id with gsuite_gmail_get_message",
    )
    ∷ (
      "gsuite:calendar_event",
      "metadata contains {\"event_id\",\"start_time\",\"end_time\"}; use event_id with gsuite_calendar_get_event",
    )
    ∷ (
      "gsuite:calendar_event_description",
      "metadata contains {\"event_id\",\"start_time\",\"end_time\"}; use event_id with gsuite_calendar_get_event",
    )
    ∷ ("gsuite:task", "metadata contains {\"task_id\",\"status\",\"due\"}")
    ∷ ("gsuite:contact", "metadata contains {\"resource_name\",\"emails\",\"phones\"}")
    ∷ (
      "gsuite:presentation_title",
      "metadata contains {\"presentation_id\",\"modified_time\"}; use presentation_id with gsuite_slides_get_presentation",
    )
    ∷ (
      "gsuite:presentation_owner",
      "metadata contains {\"presentation_id\",\"modified_time\"}; use presentation_id with gsuite_slides_get_presentation",
    )
    ∷ (
      "gsuite:presentation_content",
      "metadata contains {\"presentation_id\",\"modified_time\"}; use presentation_id with gsuite_slides_get_presentation",
    )
    ∷ ("notebook:note_title", "metadata contains {\"path\",\"dir\"}; use path with notebook_read")
    ∷ (
      "notebook:note_content",
      "metadata contains {\"path\",\"dir\",\"chunk\"}; use path with notebook_read",
    )
    ∷ (
      "notebook:pdf_title", "metadata contains {\"path\",\"dir\"}; use path with notebook_read_pdf",
    )
    ∷ (
      "notebook:pdf_content",
      "metadata contains {\"path\",\"dir\",\"chunk\"}; use path with notebook_read_pdf",
    )
    ∷ (
      "notebook:image",
      "metadata contains {\"path\",\"dir\",\"labels\"}; use path with notebook_get_image",
    )
    ∷ (
      "browser_history:browser_visit",
      "metadata contains {\"url\",\"visit_count\",\"last_visit_time\",\"url_id\",\"domain\"}; use browser_history_search for visit rows",
    )
    ∷ []

-- searchMetadataHint, with the empty text for a missing key
unfoldable pub search_metadata_hint : String → String → String
search_metadata_hint source content_type =
    elim (lookup (source <> (":" <> content_type)) search_metadata_hints) [
      | none ↦ ""
      | some hint ↦ hint
    ]

-- The weight of loadResults, in tenths: 1.0 where the map has none.
unfoldable pub weight_of : String → ℕ
weight_of content_type = elim (lookup content_type hierarchy_weights) [ none ↦ 10 | some w ↦ w ]
